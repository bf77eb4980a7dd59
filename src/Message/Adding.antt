-- ===== src/Message/Adding.antt =====
-- How `addGroup` changes a message.
use rsb_spread_cpp.Base.{
  IsInvalidArgument, refl, List, [], ◌∷◌, ◌-◌, ◌≤◌, ◌<◌, ◌≡◌, refl, sym, ap, ◌∙◌, ◌↔◌, ◌⊎◌, inl,
  inr, arith, ltb, Bool-cases, length, Text, Result, ok, throw, fault, ◌>>◌, >>=-ok,
}
use rsb_spread_cpp.Spread.{Env}
use rsb_spread_cpp.Message.{insert_set, Message, add_group}
use rsb_spread_cpp.Message.Groups.{
  IsSorted, Has, insert_set-IsSorted, insert_set-Has, insert_set-insert_set,
}

-- How `add_group` may end.
abbrev pub Adds : Env → Text → Message → Result (Unit {0}) × Message → Type 0
Adds env name m (ok _, n) =
    (length name ≤ env.max_group_name - 1)
    × IsSorted n.groups
    × ((x : Text) → Has x n.groups ↔ ((x ≡ name) ⊎ Has x m.groups))
    × (n ≡ record m { groups = n.groups })
Adds env name m (throw e, n) =
    (env.max_group_name - 1 < length name) × IsInvalidArgument e × (n ≡ m)
Adds env name m (fault x, n) = ⊥

-- Adding a group to a message whose groups are sorted either finds that the name is longer than the
-- limit, throws `invalid_argument` and leaves the message alone, or the name fits, the groups stay
-- sorted, gain exactly that name, and nothing else of the message changes.
pub add_group-Adds :
    (env : Env) (name : Text) (m : Message)
    → IsSorted m.groups
    → Adds env name m (add_group env name m)
unfolding add_group
add_group-Adds env name m s = elim (Bool-cases (ltb (env.max_group_name - 1) (length name))) [
  | inl long ↦ rw (long, add_group) (ground arith, tt, refl)
  | inr short ↦
      rw (short, add_group)
        (
          ground arith,
          insert_set-IsSorted name m.groups s,
          λ x. insert_set-Has x name m.groups,
          refl,
        )
]

module _ (env : Env) where
  -- A name that fits is added.
  pub add_group_fits :
      (name : Text) (m : Message)
      → length name ≤ env.max_group_name - 1
      → add_group env name m ≡ (ok tt, record m { groups = insert_set name m.groups })
  unfolding add_group
  add_group_fits name m h = ground arith

  add_two :
      (a b : Text) (m : Message)
      → length a ≤ env.max_group_name - 1
      → length b ≤ env.max_group_name - 1
      → (add_group env a >> add_group env b) m
        ≡ (ok tt, record m { groups = insert_set b (insert_set a m.groups) })
  add_two a b m ha hb =
      >>=-ok (add_group env a) (λ _. add_group env b) m (add_group_fits a m ha)
      ∙ add_group_fits b _ hb

  -- The order in which two groups that fit are added does not show.
  pub add_group-add_group :
      (a b : Text) (m : Message)
      → length a ≤ env.max_group_name - 1
      → length b ≤ env.max_group_name - 1
      → (add_group env a >> add_group env b) m ≡ (add_group env b >> add_group env a) m
  add_group-add_group a b m ha hb =
      add_two a b m ha hb
      ∙ ap (λ gs. (ok tt, record m { groups = gs })) (insert_set-insert_set b a m.groups)
      ∙ sym (add_two b a m hb ha)

-- Adding groups one after the other, as a loop of `addGroup` does.
abbrev pub add_all : List Text → List Text → List Text
add_all [] gs = gs
add_all (x ∷ xs) gs = add_all xs (insert_set x gs)

add_all-insert_set :
    (xs : List Text) (x : Text) (gs : List Text)
    → add_all xs (insert_set x gs) ≡ insert_set x (add_all xs gs)
add_all-insert_set [] x gs = refl
add_all-insert_set (y ∷ xs) x gs =
    ap (add_all xs) (insert_set-insert_set y x gs) ∙ add_all-insert_set xs x (insert_set y gs)

insert_set-sorted : (x : Text) (xs : List Text) → IsSorted (x ∷ xs) → insert_set x xs ≡ x ∷ xs
unfolding insert_set
insert_set-sorted x [] s = refl
insert_set-sorted x (y ∷ xs) s = ground arith

-- Adding the elements of a set to no groups gives that set again.
pub add_all_nil : (xs : List Text) → IsSorted xs → add_all xs [] ≡ xs
add_all_nil [] s = refl
add_all_nil (x ∷ xs) s =
    add_all-insert_set xs x [] ∙ ap (insert_set x) (add_all_nil xs s.1) ∙ insert_set-sorted x xs s

pub add_all-IsSorted : (xs gs : List Text) → IsSorted gs → IsSorted (add_all xs gs)
add_all-IsSorted [] gs s = s
add_all-IsSorted (x ∷ xs) gs s = add_all-IsSorted xs (insert_set x gs) (insert_set-IsSorted x gs s)
