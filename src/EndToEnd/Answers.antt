-- ===== src/EndToEnd/Answers.antt =====
-- What a receiver makes of the messages of one event, of however many fragments.
use rsb_spread_cpp.Base.{
  ℕ, ◌≢◌, ◌≤◌, ◌<◌, ◌^◌, ◌≡◌, refl, sym, ap, ap₂, ◌∙◌, subst, none, some, Option, List, [], ◌∷◌,
  map, arith, length, if_pos, if_neg, All, Text, Text_discrete, lookup, ok,
}
use rsb_spread_cpp.Spread.{Env}
use rsb_spread_cpp.Protocol.{Notification, Fragment}
use rsb_spread_cpp.GroupNameCache.{Naming}
use rsb_spread_cpp.Pool.{Pool, key_of}
use rsb_spread_cpp.Pool.Isolation.{Arrivals, of_key}
use rsb_spread_cpp.Pool.Reassembly.{fragments}
use rsb_spread_cpp.Deserializing.{incoming, handle_message}
use rsb_spread_cpp.Deserializing.Reception.{receptions, received_last, message_of}
use rsb_spread_cpp.OutConnector.{Events, Connector, populate, cut_wire}
use rsb_spread_cpp.OutConnector.Cutting.{Fits, Delivers, cut_wire-Delivers}
use rsb_spread_cpp.Bus.{numbered}
use rsb_spread_cpp.EndToEnd.{receptions-cut_wire, handle_message-cut_wire, length-Perm}
use mathlib.Core.List.{Permᴰ}

pub of_key_same : (key : Text) (es : Arrivals) → All (λ a. key_of a.1 ≡ key) es → of_key key es ≡ es
unfolding of_key
of_key_same key [] h = refl
of_key_same key ((now, f) ∷ es) h =
    if_pos (Text_discrete (key_of f) key) h.0 _ _ ∙ ap (◌∷◌ (now, f)) (of_key_same key es h.1)

no_more : (fs : List Fragment) → length fs ≡ 0 → fs ≡ []
no_more [] e = refl
no_more (f ∷ fs) e = absurd (omega (arith, e))

Permᴰ-single : {fs gs : List Fragment} → Permᴰ fs gs → (f : Fragment) → fs ≡ f ∷ [] → gs ≡ f ∷ []
Permᴰ-single Permᴰ.nil f e = e
Permᴰ-single (Permᴰ.cons {a} {b} {l₁} {l₂} same d) f e =
    let none_left : length l₂ ≡ 0 = omega (arith, ap length e, length-Perm d) in
    let first : a ≡ f = ap (λ l. elim l [ [] ↦ a | x ∷ xs ↦ x ]) e in
    ap₂ ◌∷◌ (sym same ∙ first) (no_more l₂ none_left)
Permᴰ-single (Permᴰ.swap same d) f e = absurd (omega (arith, ap length e))
Permᴰ-single (Permᴰ.trans d k) f e = Permᴰ-single k f (Permᴰ-single d f e)

module _ {Scope Event : Type 0} (env : Env) (events : Events Scope Event) (naming : Naming Scope)
    (serialize : Fragment → Text) (parse : Text → Option Fragment)
    (round_trip : (f : Fragment) → parse (serialize f) ≡ some f) (c : Connector Scope) (e : Event)
    (schema wire : Text) (fits : Fits env events c e schema wire) (groups : List Text)
    (key : Text) where
  abbrev whole_event : Notification
  whole_event = record (populate env events e schema 0).notification { payload = wire }

  -- The fragments of the key, with this one or without it.
  fragments_hit :
      (now : ℕ) (f : Fragment) (es : Arrivals)
      → key_of f ≡ key
      → fragments (of_key key ((now, f) ∷ es)) ≡ f ∷ fragments (of_key key es)
  unfolding of_key
  fragments_hit now f es hit =
      ap fragments
        (if_pos (Text_discrete (key_of f) key) hit ((now, f) ∷ of_key key es) (of_key key es))

  fragments_miss :
      (now : ℕ) (f : Fragment) (es : Arrivals)
      → key_of f ≢ key
      → fragments (of_key key ((now, f) ∷ es)) ≡ fragments (of_key key es)
  unfolding of_key
  fragments_miss now f es miss =
      ap fragments
        (if_neg (Text_discrete (key_of f) key) miss ((now, f) ∷ of_key key es) (of_key key es))

  no_answer :
      (es : Arrivals) (p : Pool)
      → fragments (of_key key es) ≡ []
      → receptions env naming parse serialize groups key es p ≡ []
  unfolding receptions
  no_answer [] p nothing = refl
  no_answer ((now, g) ∷ es) p nothing = elim (Text_discrete (key_of g) key) [
    | yes hit ↦ absurd (omega (arith, ap length (sym (fragments_hit now g es hit) ∙ nothing)))
    | no miss ↦
        if_neg (Text_discrete (key_of g) key) miss _ _
        ∙ no_answer es _ (sym (fragments_miss now g es miss) ∙ nothing)
  ]

  single_answer :
      (f : Fragment) (es : Arrivals) (p : Pool)
      → cut_wire env events c e (schema, wire) ≡ ok (f ∷ [])
      → fragments (of_key key es) ≡ numbered env (λ f. some (serialize f)) 1 f ∷ []
      → receptions env naming parse serialize groups key es p
        ≡ incoming env naming parse (some whole_event) ∷ []
  unfolding of_key receptions
  single_answer f [] p cut same = absurd (omega (arith, ap length same))
  single_answer f ((now, g) ∷ es) p cut same =
      let handled = λ (g : Fragment).
        handle_message env naming parse now (message_of env naming parse serialize groups g) p in
      elim (Text_discrete (key_of g) key) [
        | yes hit ↦
            let same' = sym (fragments_hit now g es hit) ∙ same in
            let first : g ≡ numbered env (λ f. some (serialize f)) 1 f =
              ap (λ l. elim l [ [] ↦ g | x ∷ xs ↦ x ]) same' in
            let whole =
              handle_message-cut_wire env events naming serialize parse c e schema wire f groups now
                p round_trip fits cut in
            let no_more : fragments (of_key key es) ≡ [] =
              ap (λ l. elim l [ [] ↦ [] | x ∷ xs ↦ xs ]) same' in
            if_pos (Text_discrete (key_of g) key) hit _ _
            ∙ ap₂ ◌∷◌ (ap (λ g. (handled g).0) first ∙ ap (λ r. r.0) whole)
                (no_answer es (handled g).1 no_more)
        | no miss ↦
            if_neg (Text_discrete (key_of g) key) miss _ _
            ∙ single_answer f es (handled g).1 cut (sym (fragments_miss now g es miss) ∙ same)
      ]

  pub some_fragment :
      (fs : List Fragment) → cut_wire env events c e (schema, wire) ≡ ok fs → 1 ≤ length fs
  some_fragment fs cut =
      (subst (Delivers env events c e schema wire fits) cut
        (cut_wire-Delivers env events c e schema wire fits)).1

  pub receptions-whole :
      (fs : List Fragment) (es : Arrivals) (p : Pool)
      → cut_wire env events c e (schema, wire) ≡ ok fs
      → length fs < 2 ^ 32
      → lookup Text_discrete key p.assemblies ≡ none
      → Permᴰ
          (map (numbered env (λ f. some (serialize f)) (length fs)) fs)
          (fragments (of_key key es))
      → receptions env naming parse serialize groups key es p
        ≡ received_last env naming parse serialize
            (incoming env naming parse (some whole_event))
            (length fs)
  receptions-whole [] es p cut small free arrived = absurd (omega (arith, some_fragment [] cut))
  receptions-whole (f ∷ []) es p cut small free arrived =
      single_answer f es p cut (Permᴰ-single arrived _ refl)
  receptions-whole (f ∷ g ∷ fs) es p cut small free arrived =
      receptions-cut_wire env events naming serialize parse c e schema wire (f ∷ g ∷ fs) groups key
        es p round_trip fits cut (omega arith) small free arrived
