-- ===== src/Message/Sets.antt =====
-- The groups of a message as a set: a list up to its members, of which the sorted list is the
-- normal form.
use rsb_spread_cpp.Base.{
  ◌≡◌, ◌↔◌, ◌⊎◌, inl, inr, refl, sym, ap₂, subst, true, Text, List, [], ◌∷◌, arith, text_ltb,
  text_ltb_irrefl, text_ltb_trans,
}
use mathlib.Core.Quot
use mathlib.Core.Quot.{Quot, Quot-set}
use rsb_spread_cpp.Message.{insert_set}
use rsb_spread_cpp.Message.Groups.{Above, IsSorted, Has, insert_set-Has}
use rsb_spread_cpp.Message.Adding.{add_all, add_all-IsSorted}

-- Both lists hold the same texts, in any order and however often.
abbrev pub SameMembers : List Text → List Text → Type 0
SameMembers xs ys = (x : Text) → Has x xs ↔ Has x ys

abbrev pub GroupSet : Type 0
GroupSet = Quot SameMembers

Above-Has : (x z : Text) (ys : List Text) → Above x ys → Has z ys → text_ltb x z ≡ true
Above-Has x z [] a h = absurd h
Above-Has x z (y ∷ ys) a (inl e) = subst (λ z. text_ltb x z ≡ true) (sym e) a.0
Above-Has x z (y ∷ ys) a (inr h) = Above-Has x z ys a.1 h

IsSorted-head :
    (x y : Text) (xs ys : List Text)
    → IsSorted (x ∷ xs)
    → IsSorted (y ∷ ys)
    → SameMembers (x ∷ xs) (y ∷ ys)
    → x ≡ y
IsSorted-head x y xs ys s t same = heads ((same x).0 (inl refl)) ((same y).1 (inl refl))
  where
    heads : Has x (y ∷ ys) → Has y (x ∷ xs) → x ≡ y
    heads (inl e) h = e
    heads (inr g) (inl e) = sym e
    heads (inr g) (inr h) =
        let below = text_ltb_trans x y x (Above-Has x y xs s.0 h) (Above-Has y x ys t.0 g) in
        absurd (ground (arith, text_ltb_irrefl x, below))

-- The tail of a sorted list has the other members.
Has-tail :
    (x z : Text) (xs ys : List Text)
    → IsSorted (x ∷ xs)
    → (Has z (x ∷ xs) → Has z (x ∷ ys))
    → Has z xs
    → Has z ys
Has-tail x z xs ys s into h = in_tail (into (inr h))
  where
    in_tail : Has z (x ∷ ys) → Has z ys
    in_tail (inl e) =
        let below = subst (λ z. text_ltb x z ≡ true) e (Above-Has x z xs s.0 h) in
        absurd (ground (arith, text_ltb_irrefl x, below))
    in_tail (inr g) = g

-- A sorted list is determined by its members.
pub IsSorted-ext : (xs ys : List Text) → IsSorted xs → IsSorted ys → SameMembers xs ys → xs ≡ ys
IsSorted-ext [] [] s t same = refl
IsSorted-ext [] (y ∷ ys) s t same = absurd ((same y).1 (inl refl))
IsSorted-ext (x ∷ xs) [] s t same = absurd ((same x).0 (inl refl))
IsSorted-ext (x ∷ xs) (y ∷ ys) s t same =
    let e = IsSorted-head x y xs ys s t same in
    let moved = subst (λ y. SameMembers (x ∷ xs) (y ∷ ys)) (sym e) same in
    let u = subst (λ y. IsSorted (y ∷ ys)) (sym e) t in
    ap₂ ◌∷◌ e (
      IsSorted-ext xs ys s.1 t.1
        (λ z. (Has-tail x z xs ys s (moved z).0, Has-tail x z ys xs u (moved z).1)))

add_all-Has : (x : Text) (xs gs : List Text) → Has x (add_all xs gs) ↔ (Has x xs ⊎ Has x gs)
add_all-Has x [] gs = ground arith
add_all-Has x (y ∷ xs) gs =
    ground (arith, add_all-Has x xs (insert_set y gs), insert_set-Has x y gs)

pub add_all-SameMembers : (xs : List Text) → SameMembers (add_all xs []) xs
add_all-SameMembers xs x = ground (arith, add_all-Has x xs [])

-- The members in their order, each once.
unfoldable pub listed : GroupSet → List Text
listed =
    Quot.lift (hlevel) (λ xs. add_all xs [])
      (λ xs ys same.
        IsSorted-ext (add_all xs []) (add_all ys []) (add_all-IsSorted xs [] tt)
          (add_all-IsSorted ys [] tt)
          (λ x. ground (arith, add_all-SameMembers xs x, add_all-SameMembers ys x, same x)))

pub mk-listed : (q : GroupSet) → Quot.mk (listed q) ≡ q
unfolding listed
mk-listed = Quot.ind (λ q. Quot-set _ _) (λ xs. Quot.sound (add_all-SameMembers xs))
