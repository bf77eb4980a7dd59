-- ===== src/Message/Groups.antt =====
-- The groups of a message form a set: sorted, without repetition, and independent of the order in
-- which they were added.
use rsb_spread_cpp.Base.{
  ◌≡◌, ◌⊎◌, ◌↔◌, true, Text, List, [], ◌∷◌, All, arith, text_ltb, text_ltb_irrefl, text_ltb_trans,
  text_ltb_total,
}
use rsb_spread_cpp.Message.{insert_set}

-- Every text of the list comes after `x`.
abbrev pub Above : Text → List Text → Type 0
Above x = All (λ y. text_ltb x y ≡ true)

abbrev pub IsSorted : List Text → Type 0
IsSorted [] = Unit {0}
IsSorted (x ∷ xs) = Above x xs × IsSorted xs

abbrev pub Has : Text → List Text → Type 0
Has x [] = ⊥
Has x (y ∷ ys) = (x ≡ y) ⊎ Has x ys

Above-trans : (x y : Text) (ys : List Text) → text_ltb x y ≡ true → Above y ys → Above x ys
Above-trans x y [] h a = tt
Above-trans x y (z ∷ zs) h a = (text_ltb_trans x y z h a.0, Above-trans x y zs h a.1)

insert_set-Above :
    (x y : Text) (ys : List Text) → text_ltb x y ≡ true → Above x ys → Above x (insert_set y ys)
unfolding insert_set
insert_set-Above x y [] h a = (h, tt)
insert_set-Above x y (z ∷ zs) h a = ground (arith, insert_set-Above x y zs h a.1)

pub insert_set-IsSorted : (x : Text) (ys : List Text) → IsSorted ys → IsSorted (insert_set x ys)
unfolding insert_set
insert_set-IsSorted x [] s = (tt, tt)
insert_set-IsSorted x (y ∷ ys) s =
    ground (arith, Above-trans x y ys, insert_set-IsSorted x ys s.1, insert_set-Above y x ys)

pub insert_set-Has : (x y : Text) (ys : List Text) → Has x (insert_set y ys) ↔ ((x ≡ y) ⊎ Has x ys)
unfolding insert_set
insert_set-Has x y [] = ground arith
insert_set-Has x y (z ∷ zs) = ground (arith, insert_set-Has x y zs, text_ltb_total y z)

pub insert_set-insert_set :
    (x y : Text) (zs : List Text) → insert_set x (insert_set y zs) ≡ insert_set y (insert_set x zs)
unfolding insert_set
insert_set-insert_set x y [] =
    ground (arith, text_ltb_total x y, text_ltb_trans x y x, text_ltb_irrefl x)
insert_set-insert_set x y (z ∷ zs) = ground (
  arith,
  insert_set-insert_set x y zs,
  text_ltb_total x y,
  text_ltb_total x z,
  text_ltb_total y z,
  text_ltb_trans x y x,
  text_ltb_trans x y z,
  text_ltb_trans y x z,
  text_ltb_trans z x y,
  text_ltb_trans z y x,
  text_ltb_irrefl x,
)
