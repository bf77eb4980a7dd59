-- ===== src/EndToEnd/Gathering.antt =====
-- All fragments of some events, among those that several processes send.
use rsb_spread_cpp.Base.{
  ◌≡◌, refl, sym, ap, ◌∙◌, subst, inl, inr, List, [], ◌∷◌, ◌++◌, map, All, Text,
}
use rsb_spread_cpp.Spread.{Call, Env}
use rsb_spread_cpp.Protocol.{Fragment}
use rsb_spread_cpp.Notifications.{Transported}
use rsb_spread_cpp.Pool.{key_of}
use rsb_spread_cpp.EndToEnd.Traffic.{Tagged, with_key, completions, AllBring}
use rsb_spread_cpp.EndToEnd.Merging.{
  Merge, both_done, from_left, from_right, Merges, Merge-swap, Apart, Apart-first, Apart-rest,
  Apart-swap, with_key_left, completions-Merge, AllBring-Merge,
}

All-Merge :
    {A : Type 0} (P : A → Type 0) {xs ys zs : List A}
    → Merge xs ys zs
    → All P xs
    → All P ys
    → All P zs
All-Merge P both_done v w = tt
All-Merge P (from_left m) v w = (v.0, All-Merge P m v.1 w)
All-Merge P (from_right m) v w = (w.0, All-Merge P m v w.1)

pub Merge-append : {A : Type 0} (xs ys : List A) → Merge xs ys (xs ++ ys)
Merge-append [] [] = both_done
Merge-append [] (y ∷ ys) = from_right (Merge-append [] ys)
Merge-append (x ∷ xs) ys = from_left (Merge-append xs ys)

-- What holds of a key, all its fragments, and what they are tagged with.
abbrev pub Gathered : Type 0 → Type 1
Gathered Scope = Text → List (Tagged Scope) → Transported Scope → Type 0

module _ {Scope : Type 0} (Q : Gathered Scope) where
  -- It holds of the key of each of the first ones, with all fragments of this key among the others.
  abbrev pub Gather : List (Tagged Scope) → List (Tagged Scope) → Type 0
  Gather fs all = All (λ f. Q (key_of f.0) (with_key (key_of f.0) all) f.1) fs

  Gather-left :
      (gs hs : List (Tagged Scope)) (fs es : List (Tagged Scope))
      → Apart es gs
      → Merge fs gs hs
      → Gather es fs
      → Gather es hs
  Gather-left gs hs fs [] apart m v = tt
  Gather-left gs hs fs (e ∷ es) apart m v = (
    subst (λ ds. Q (key_of e.0) ds e.1)
        (sym (with_key_left (key_of e.0) m (Apart-first e es gs apart))) v.0,
    Gather-left gs hs fs es (Apart-rest e es gs apart) m v.1,
  )

  pub Gather-Merge :
      (fs gs hs : List (Tagged Scope))
      → Apart fs gs
      → Merge fs gs hs
      → Gather fs fs
      → Gather gs gs
      → Gather hs hs
  Gather-Merge fs gs hs apart m v w =
      All-Merge (λ f. Q (key_of f.0) (with_key (key_of f.0) hs) f.1) m
        (Gather-left gs hs fs fs apart m v)
        (Gather-left fs hs gs gs (Apart-swap fs gs apart) (Merge-swap m) w)

module _ {Scope : Type 0} where
  with_key_nothing :
      (key : Text) {fs gs hs : List (Tagged Scope)}
      → Merge fs gs hs
      → with_key key fs ≡ []
      → with_key key gs ≡ []
      → with_key key hs ≡ []
  with_key_nothing key m v w = with_key_left key m w ∙ v

  Apart-Merge :
      (es : List (Tagged Scope)) {fs gs hs : List (Tagged Scope)}
      → Merge fs gs hs
      → Apart es fs
      → Apart es gs
      → Apart es hs
  Apart-Merge es m v w key = elim (v key) [
    | inl none_here ↦ inl none_here
    | inr none_left ↦ elim (w key) [
      | inl none_here ↦ inl none_here
      | inr none_right ↦ inr (with_key_nothing key m none_left none_right)
    ]
  ]

  Apart-Merges :
      (es : List (Tagged Scope)) (fss : List (List (Tagged Scope))) (hs : List (Tagged Scope))
      → All (Apart es) fss
      → Merges fss hs
      → Apart es hs
  Apart-Merges es [] hs v m = λ key. inr (ap (with_key key) m)
  Apart-Merges es (fs ∷ fss) hs v (gs, m, n) = Apart-Merge es n v.0 (Apart-Merges es fss gs v.1 m)

  -- No key is among two of them.
  abbrev pub AllApart : List (List (Tagged Scope)) → Type 0
  AllApart [] = Unit {0}
  AllApart (fs ∷ fss) = All (Apart fs) fss × AllApart fss

  pub completions-Merges :
      (fss : List (List (Tagged Scope))) (hs : List (Tagged Scope))
      → AllApart fss
      → Merges fss hs
      → Merges (map completions fss) (completions hs)
  completions-Merges [] hs v m = ap completions m
  completions-Merges (fs ∷ fss) hs v (gs, m, n) = (
    completions gs,
    completions-Merges fss gs v.1 m,
    completions-Merge n (Apart-Merges fs fss gs v.0 m),
  )

  pub Gather-Merges :
      (Q : Gathered Scope) (fss : List (List (Tagged Scope))) (hs : List (Tagged Scope))
      → AllApart fss
      → Merges fss hs
      → All (λ fs. Gather Q fs fs) fss
      → Gather Q hs hs
  Gather-Merges Q [] hs v m w = subst (λ ds. Gather Q ds ds) (sym m) tt
  Gather-Merges Q (fs ∷ fss) hs v (gs, m, n) w =
      Gather-Merge Q fs gs hs (Apart-Merges fs fss gs v.0 m) n w.0
        (Gather-Merges Q fss gs v.1 m w.1)

  pub AllBring-append :
      (env : Env) (serialize : Fragment → Text) (own : Text) (cs ds : List Call)
      (fs gs : List (Tagged Scope))
      → AllBring env serialize own cs fs
      → AllBring env serialize own ds gs
      → AllBring env serialize own (cs ++ ds) (fs ++ gs)
  AllBring-append env serialize own [] ds [] gs v w = w
  AllBring-append env serialize own [] ds (f ∷ fs) gs v w = absurd v
  AllBring-append env serialize own (c ∷ cs) ds [] gs v w = absurd v
  AllBring-append env serialize own (c ∷ cs) ds (f ∷ fs) gs v w =
      (v.0, AllBring-append env serialize own cs ds fs gs v.1 w)

  -- Calls of several processes, and the fragments that they bring.
  abbrev pub AllBringAll :
      Env → (Fragment → Text) → Text → List (List Call) → List (List (Tagged Scope)) → Type 0
  AllBringAll env serialize own [] [] = Unit {0}
  AllBringAll env serialize own (cs ∷ css) (fs ∷ fss) =
      AllBring env serialize own cs fs × AllBringAll env serialize own css fss
  AllBringAll env serialize own _ _ = ⊥

  pub AllBring-Merges :
      (env : Env) (serialize : Fragment → Text) (own : Text) (css : List (List Call))
      (fss : List (List (Tagged Scope))) (es : List Call)
      → AllBringAll env serialize own css fss
      → Merges css es
      → (hs : List (Tagged Scope)) × Merges fss hs × AllBring env serialize own es hs
  AllBring-Merges env serialize own [] [] es v m =
      ([], refl, subst (λ es. AllBring {Scope = Scope} env serialize own es []) (sym m) tt)
  AllBring-Merges env serialize own [] (fs ∷ fss) es v m = absurd v
  AllBring-Merges env serialize own (cs ∷ css) [] es v m = absurd v
  AllBring-Merges env serialize own (cs ∷ css) (fs ∷ fss) es v (ds, m, n) =
      let (gs, k, w) = AllBring-Merges env serialize own css fss ds v.1 m in
      let (hs, j, x) = AllBring-Merge env serialize own fs gs n v.0 w in (hs, (gs, k, j), x)
