-- ===== src/EndToEnd/Losing.antt =====
-- What a receiver makes of an event of which a fragment does not come.
use rsb_spread_cpp.Base.{
  ℕ, zero, suc, ◌+◌, ◌<◌, ◌^◌, ◌≡◌, refl, sym, ap, ◌∙◌, subst, none, some, Option, List, [], ◌∷◌,
  ◌++◌, map, arith, length, length-append, length-map, if_pos, if_neg, All, Text, Text_discrete,
  lookup, Result, ok,
}
use rsb_spread_cpp.Spread.{Env}
use rsb_spread_cpp.Protocol.{Fragment}
use rsb_spread_cpp.Notifications.{Transported}
use rsb_spread_cpp.GroupNameCache.{Naming}
use rsb_spread_cpp.Pool.{Pool, key_of}
use rsb_spread_cpp.Pool.Isolation.{Arrivals, of_key}
use rsb_spread_cpp.Pool.Reassembly.{fragments}
use rsb_spread_cpp.Deserializing.{handle_message}
use rsb_spread_cpp.Deserializing.Reception.{receptions, received_last, message_of}
use rsb_spread_cpp.OutConnector.{Events, Connector, cut_wire}
use rsb_spread_cpp.OutConnector.Cutting.{Fits}
use rsb_spread_cpp.Bus.{numbered}
use rsb_spread_cpp.EndToEnd.{All-Perm, length-Perm}
use rsb_spread_cpp.EndToEnd.Answers.{of_key_same, receptions-whole}
use mathlib.Core.List.{Permᴰ}

All-append : {A : Type 0} (P : A → Type 0) (xs ys : List A) → All P (xs ++ ys) → All P ys
All-append P [] ys h = h
All-append P (x ∷ xs) ys h = All-append P xs ys h.1

-- These fragments, at some time.
abbrev at_last : List Fragment → Arrivals
at_last = map (λ f. (0, f))

fragments-at_last : (fs : List Fragment) → fragments (at_last fs) ≡ fs
fragments-at_last [] = refl
fragments-at_last (f ∷ fs) = ap (◌∷◌ f) (fragments-at_last fs)

at_last-keys :
    (key : Text) (fs : List Fragment)
    → All (λ f. key_of f ≡ key) fs
    → All (λ a. key_of a.1 ≡ key) (at_last fs)
at_last-keys key [] h = tt
at_last-keys key (f ∷ fs) h = (h.0, at_last-keys key fs h.1)

of_key-append :
    (key : Text) (es ds : Arrivals) → of_key key (es ++ ds) ≡ of_key key es ++ of_key key ds
unfolding of_key
of_key-append key [] ds = refl
of_key-append key ((now, f) ∷ es) ds = elim (Text_discrete (key_of f) key) [
  | yes e ↦
      if_pos (Text_discrete (key_of f) key) e _ _
      ∙ ap (◌∷◌ (now, f)) (of_key-append key es ds)
      ∙ ap (λ l. l ++ of_key key ds) (sym (if_pos (Text_discrete (key_of f) key) e _ _))
  | no ne ↦
      if_neg (Text_discrete (key_of f) key) ne _ _
      ∙ of_key-append key es ds
      ∙ ap (λ l. l ++ of_key key ds) (sym (if_neg (Text_discrete (key_of f) key) ne _ _))
]

fragments-append : (es ds : Arrivals) → fragments (es ++ ds) ≡ fragments es ++ fragments ds
fragments-append [] ds = refl
fragments-append (e ∷ es) ds = ap (◌∷◌ e.1) (fragments-append es ds)

module _ {Scope : Type 0} (env : Env) (naming : Naming Scope) (parse : Text → Option Fragment)
    (serialize : Fragment → Text) where
  -- Nothing is handed on, and nothing is thrown.
  abbrev pub Silent : List (Result (Option (Transported Scope))) → Type 0
  Silent = All (λ r. r ≡ ok none)

  received_last-Silent :
      (r : Result (Option (Transported Scope))) (n : ℕ)
      (xs ys : List (Result (Option (Transported Scope))))
      → xs ++ ys ≡ received_last env naming parse serialize r n
      → length xs < n
      → Silent xs
  received_last-Silent r n [] ys e few = tt
  received_last-Silent r zero (x ∷ xs) ys e few = absurd (omega (arith, few))
  received_last-Silent r (suc zero) (x ∷ xs) ys e few = absurd (omega (arith, few))
  received_last-Silent r (suc (suc n)) (x ∷ xs) ys e few = (
    ap (λ l. elim l [ [] ↦ x | z ∷ zs ↦ z ]) e,
    received_last-Silent r (suc n) xs ys (ap (λ l. elim l [ [] ↦ [] | z ∷ zs ↦ zs ]) e)
        (omega (arith, few)),
  )

  receptions-append :
      (groups : List Text) (key : Text) (es ds : Arrivals) (p : Pool)
      → (q : Pool) × (receptions env naming parse serialize groups key (es ++ ds) p
          ≡ receptions env naming parse serialize groups key es p
            ++ receptions env naming parse serialize groups key ds q)
  unfolding receptions
  receptions-append groups key [] ds p = (p, refl)
  receptions-append groups key ((now, f) ∷ es) ds p =
      let handled =
        handle_message env naming parse now (message_of env naming parse serialize groups f) p in
      let (q, later) = receptions-append groups key es ds handled.1 in
      (
        q,
        elim (Text_discrete (key_of f) key) [
          | yes e ↦
              if_pos (Text_discrete (key_of f) key) e _ _
              ∙ ap (◌∷◌ handled.0) later
              ∙ ap (λ l. l ++ receptions env naming parse serialize groups key ds q)
                  (sym (if_pos (Text_discrete (key_of f) key) e _ _))
          | no ne ↦
              if_neg (Text_discrete (key_of f) key) ne _ _
              ∙ later
              ∙ ap (λ l. l ++ receptions env naming parse serialize groups key ds q)
                  (sym (if_neg (Text_discrete (key_of f) key) ne _ _))
        ],
      )

  length-receptions :
      (groups : List Text) (key : Text) (es : Arrivals) (p : Pool)
      → length (receptions env naming parse serialize groups key es p)
        ≡ length (fragments (of_key key es))
  unfolding receptions of_key
  length-receptions groups key [] p = refl
  length-receptions groups key ((now, f) ∷ es) p =
      let handled =
        handle_message env naming parse now (message_of env naming parse serialize groups f) p in
      elim (Text_discrete (key_of f) key) [
        | yes e ↦
            ap length (if_pos (Text_discrete (key_of f) key) e _ _)
            ∙ ap suc (length-receptions groups key es handled.1)
            ∙ ap (λ l. length (fragments l)) (sym (if_pos (Text_discrete (key_of f) key) e _ _))
        | no ne ↦
            ap length (if_neg (Text_discrete (key_of f) key) ne _ _)
            ∙ length-receptions groups key es handled.1
            ∙ ap (λ l. length (fragments l)) (sym (if_neg (Text_discrete (key_of f) key) ne _ _))
      ]

-- An event of which a fragment does not come is never handed on: whichever of its fragments reach a
-- receiver, in any order and among others, nothing is handed on for them and nothing is thrown, as
-- long as one of them is missing. This asks that the meta data leave more than the minimal space in
-- every fragment and no size wraps around, that there are fewer than 2^32 fragments, that all have the
-- same key, that what is written of a fragment is read back, and that the receiver's pool holds nothing
-- under the key.
pub receptions-Silent :
    {Scope Event : Type 0} (env : Env) (events : Events Scope Event) (naming : Naming Scope)
    (serialize : Fragment → Text) (parse : Text → Option Fragment) (c : Connector Scope) (e : Event)
    (schema wire : Text) (fs : List Fragment) (groups : List Text) (key : Text) (es : Arrivals)
    (missing : List Fragment) (p : Pool)
    → (round_trip : (f : Fragment) → parse (serialize f) ≡ some f) → Fits env events c e schema wire
    → cut_wire env events c e (schema, wire) ≡ ok fs
    → length fs < 2 ^ 32
    → let sent = map (numbered env (λ f. some (serialize f)) (length fs)) fs in
      All (λ f. key_of f ≡ key) sent
      → lookup Text_discrete key p.assemblies ≡ none
      → Permᴰ sent (fragments (of_key key es) ++ missing)
      → 0 < length missing
      → Silent env naming parse serialize (receptions env naming parse serialize groups key es p)
receptions-Silent env events naming serialize parse c e schema wire fs groups key es missing p
      round_trip fits cut small keys free arrived some_missing =
    let came = fragments (of_key key es) in
    let rest = at_last missing in
    let keyed = All-append (λ f. key_of f ≡ key) came missing (All-Perm _ arrived keys) in
    let all : fragments (of_key key (es ++ rest)) ≡ came ++ missing =
      ap fragments (
        of_key-append key es rest
        ∙ ap (λ l. of_key key es ++ l) (of_key_same key rest (at_last-keys key missing keyed)))
      ∙ fragments-append (of_key key es) rest
      ∙ ap (λ l. came ++ l) (fragments-at_last missing) in
    let whole =
      receptions-whole env events naming serialize parse round_trip c e schema wire fits groups key
        fs (es ++ rest) p cut small free (subst (Permᴰ _) (sym all) arrived) in
    let (q, parts) = receptions-append env naming parse serialize groups key es rest p in
    let count : length fs ≡ length came + length missing =
      sym (length-map _ fs) ∙ length-Perm arrived ∙ length-append came missing in
    received_last-Silent env naming parse serialize _ (length fs)
      (receptions env naming parse serialize groups key es p) _ (sym parts ∙ whole)
      (omega
        (arith, count, some_missing, length-receptions env naming parse serialize groups key es p))
