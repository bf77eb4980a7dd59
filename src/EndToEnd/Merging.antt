-- ===== src/EndToEnd/Merging.antt =====
-- What several processes send, one among the other, each in its own order.
use rsb_spread_cpp.Base.{
  ◌≡◌, ◌≢◌, ◌⊎◌, refl, sym, ap, ◌∙◌, subst, inl, inr, ite, if_neg, ◌==◌, if◌then◌else◌, Bool-cases,
  List, [], ◌∷◌, arith, length, Text, Text_discrete,
}
use rsb_spread_cpp.Spread.{Call, Env}
use rsb_spread_cpp.Protocol.{Fragment}
use rsb_spread_cpp.Pool.{key_of}
use rsb_spread_cpp.EndToEnd.Traffic.{Tagged, with_key, completions, AllBring}

-- The third list holds the items of the first two, those of each in their order.
pub data Merge {A : Type 0} : List A → List A → List A → Type 0 where
  both_done : Merge [] [] []
  from_left : {x : A} {xs ys zs : List A} → Merge xs ys zs → Merge (x ∷ xs) ys (x ∷ zs)
  from_right : {y : A} {xs ys zs : List A} → Merge xs ys zs → Merge xs (y ∷ ys) (y ∷ zs)

-- The list holds the items of all these lists, those of each in their order.
abbrev pub Merges : {A : Type 0} → List (List A) → List A → Type 0
Merges [] zs = zs ≡ []
Merges {A} (xs ∷ xss) zs = (ys : List A) × Merges xss ys × Merge xs ys zs

pub Merge-swap : {A : Type 0} {xs ys zs : List A} → Merge xs ys zs → Merge ys xs zs
Merge-swap both_done = both_done
Merge-swap (from_left m) = from_right (Merge-swap m)
Merge-swap (from_right m) = from_left (Merge-swap m)

module _ {Scope : Type 0} where
  -- No key is among both.
  abbrev pub Apart : List (Tagged Scope) → List (Tagged Scope) → Type 0
  Apart fs gs = (key : Text) → (with_key key fs ≡ []) ⊎ (with_key key gs ≡ [])

  none_later :
      (key : Text) (f : Tagged Scope) (fs : List (Tagged Scope))
      → with_key key (f ∷ fs) ≡ []
      → (key_of f.0 ≢ key) × (with_key key fs ≡ [])
  none_later key f fs e = ground arith

  pub Apart-rest :
      (f : Tagged Scope) (fs gs : List (Tagged Scope)) → Apart (f ∷ fs) gs → Apart fs gs
  Apart-rest f fs gs apart key = elim (apart key) [
    | inl here ↦ inl (none_later key f fs here).1
    | inr there ↦ inr there
  ]

  pub Apart-first :
      (f : Tagged Scope) (fs gs : List (Tagged Scope))
      → Apart (f ∷ fs) gs
      → with_key (key_of f.0) gs ≡ []
  Apart-first f fs gs apart = elim (apart (key_of f.0)) [
    | inl here ↦ absurd ((none_later (key_of f.0) f fs here).0 refl)
    | inr there ↦ there
  ]

  pub Apart-swap : (fs gs : List (Tagged Scope)) → Apart fs gs → Apart gs fs
  Apart-swap fs gs apart key = elim (apart key) [ inl here ↦ inr here | inr there ↦ inl there ]

  -- A key that is not among the others.
  pub with_key_left :
      {fs gs hs : List (Tagged Scope)} (key : Text)
      → Merge fs gs hs
      → with_key key gs ≡ []
      → with_key key hs ≡ with_key key fs
  with_key_left key both_done none_there = refl
  with_key_left key (from_left {x} {xs} {ys} {zs} m) none_there =
      ap (λ r. ite (Text_discrete (key_of x.0) key) (x ∷ r) r) (with_key_left key m none_there)
  with_key_left key (from_right {y} {xs} {ys} {zs} m) none_there =
      let (ne, rest) = none_later key y ys none_there in
      if_neg (Text_discrete (key_of y.0) key) ne _ _ ∙ with_key_left key m rest

  completions_same :
      (f : Tagged Scope) (fs gs : List (Tagged Scope))
      → with_key (key_of f.0) fs ≡ with_key (key_of f.0) gs
      → completions (f ∷ fs)
        ≡ (if length (with_key (key_of f.0) gs) == 0 then f.1 ∷ completions fs else completions fs)
  completions_same f fs gs e =
      ap (λ ds. if length ds == 0 then f.1 ∷ completions fs else completions fs) e

  completions_first :
      (f : Tagged Scope) (fs gs hs : List (Tagged Scope))
      → Merge fs gs hs
      → with_key (key_of f.0) gs ≡ []
      → Merge (completions fs) (completions gs) (completions hs)
      → Merge (completions (f ∷ fs)) (completions gs) (completions (f ∷ hs))
  completions_first f fs gs hs m none_there rest =
      subst (Merge (completions (f ∷ fs)) (completions gs))
        (sym (completions_same f hs fs (with_key_left (key_of f.0) m none_there)))
        (elim (Bool-cases (length (with_key (key_of f.0) fs) == 0)) [
          | inl e ↦ rw e (from_left rest)
          | inr e ↦ rw e rest
        ])

  -- The events are completed one among the other, too.
  pub completions-Merge :
      {fs gs hs : List (Tagged Scope)}
      → Merge fs gs hs
      → Apart fs gs
      → Merge (completions fs) (completions gs) (completions hs)
  completions-Merge both_done apart = both_done
  completions-Merge (from_left {x} {xs} {ys} {zs} m) apart =
      completions_first x xs ys zs m (Apart-first x xs ys apart)
        (completions-Merge m (Apart-rest x xs ys apart))
  completions-Merge (from_right {y} {xs} {ys} {zs} m) apart =
      let flipped = Apart-swap xs (y ∷ ys) apart in
      Merge-swap (
        completions_first y ys xs zs (Merge-swap m) (Apart-first y ys xs flipped)
          (Merge-swap (completions-Merge m (Apart-swap ys xs (Apart-rest y ys xs flipped)))))

-- What calls that come one among the other bring.
pub AllBring-Merge :
    {Scope : Type 0} (env : Env) (serialize : Fragment → Text) (own : Text) {cs ds es : List Call}
    (fs gs : List (Tagged Scope))
    → Merge cs ds es
    → AllBring env serialize own cs fs
    → AllBring env serialize own ds gs
    → (hs : List (Tagged Scope)) × Merge fs gs hs × AllBring env serialize own es hs
AllBring-Merge env serialize own [] [] both_done v w = ([], both_done, tt)
AllBring-Merge env serialize own (f ∷ fs) gs both_done v w = absurd v
AllBring-Merge env serialize own [] (g ∷ gs) both_done v w = absurd w
AllBring-Merge env serialize own [] gs (from_left m) v w = absurd v
AllBring-Merge env serialize own (f ∷ fs) gs (from_left m) v w =
    let (hs, n, x) = AllBring-Merge env serialize own fs gs m v.1 w in
    (f ∷ hs, from_left n, (v.0, x))
AllBring-Merge env serialize own fs [] (from_right m) v w = absurd w
AllBring-Merge env serialize own fs (g ∷ gs) (from_right m) v w =
    let (hs, n, x) = AllBring-Merge env serialize own fs gs m v w.1 in
    (g ∷ hs, from_right n, (w.0, x))
