-- ===== src/EndToEnd.antt =====
-- From the connector that sends an event to the receiver that joins its fragments.
pub mod Answers
pub mod Rounds
pub mod Calls
pub mod Processes
pub mod Recipients
pub mod Routing
pub mod Traffic
pub mod Merging
pub mod Gathering
pub mod Publications
pub mod Senders
pub mod Receiving
pub mod Network
pub mod Interleaving
pub mod Subscribers
pub mod Losing
pub mod Stopping
use rsb_spread_cpp.Base.{
  ℕ, suc, ◌+◌, ◌^◌, ◌≤◌, ◌<◌, ◌≡◌, refl, sym, ap, ◌∙◌, subst, ◌≢◌, Option, none, some, List, [],
  ◌∷◌, ◌++◌, map, arith, length, get_elem?, length-append, length-map, All, Text, Text_discrete,
  lookup, ok,
}
use rsb_spread_cpp.Spread.{Env}
use mathlib.Core.List.{Permᴰ, append_assoc, append-nil}
use rsb_spread_cpp.Protocol.{Notification, Fragment}
use rsb_spread_cpp.GroupNameCache.{Naming}
use rsb_spread_cpp.Pool.{Pool}
use rsb_spread_cpp.Pool.Isolation.{Arrivals, of_key}
use rsb_spread_cpp.Pool.Reassembly.{fragments}
use rsb_spread_cpp.Assembly.Joining.{IsPart, Distinct}
use rsb_spread_cpp.Deserializing.{incoming, handle_message}
use rsb_spread_cpp.Deserializing.Reception.{
  receptions, received_last, receptions-received_last, message_of, handle_direct, handle_one,
}
use rsb_spread_cpp.OutConnector.{Events, Connector, populate, with_part, cut_wire}
use rsb_spread_cpp.OutConnector.Cutting.{Fits, Cuts, room, payloads, cut_wire-Cuts, Cuts-concat}
use rsb_spread_cpp.Bus.{numbered}

pub All-Perm : (P : Fragment → Type 0) {fs gs : List Fragment} → Permᴰ fs gs → All P fs → All P gs
All-Perm P Permᴰ.nil h = tt
All-Perm P (Permᴰ.cons e d) h = (subst P e h.0, All-Perm P d h.1)
All-Perm P (Permᴰ.swap e d) h = (subst P d h.1.0, (subst P e h.0, h.1.1))
All-Perm P (Permᴰ.trans d e) h = All-Perm P e (All-Perm P d h)

pub length-Perm : {fs gs : List Fragment} → Permᴰ fs gs → length fs ≡ length gs
length-Perm Permᴰ.nil = refl
length-Perm (Permᴰ.cons e d) = ap suc (length-Perm d)
length-Perm (Permᴰ.swap e d) = refl
length-Perm (Permᴰ.trans d e) = length-Perm d ∙ length-Perm e

abbrev Apart : Fragment → Fragment → Type 0
Apart f g = f.data_part ≢ g.data_part

Distinct-Perm : {fs gs : List Fragment} → Permᴰ fs gs → Distinct fs → Distinct gs
Distinct-Perm Permᴰ.nil h = tt
Distinct-Perm (Permᴰ.cons {a} {l₂} e d) h =
    (subst (λ f. All (Apart f) l₂) e (All-Perm (Apart a) d h.0), Distinct-Perm d h.1)
Distinct-Perm (Permᴰ.swap {l} e d) h = (
  (
    λ same. h.0.0 (
        ap (λ (f : Fragment). f.data_part) e
        ∙ sym same
        ∙ sym (ap (λ (f : Fragment). f.data_part) d)),
    subst (λ f. All (Apart f) l) d h.1.0,
  ),
  (subst (λ f. All (Apart f) l) e h.0.1, h.1.1),
)
Distinct-Perm (Permᴰ.trans d e) h = Distinct-Perm e (Distinct-Perm d h)

get_elem?-middle :
    (xs : List Text) (x : Text) (ys : List Text) → get_elem? (xs ++ x ∷ ys) (length xs) ≡ some x
get_elem?-middle [] x ys = refl
get_elem?-middle (y ∷ xs) x ys = get_elem?-middle xs x ys

module _ {Scope Event : Type 0} (env : Env) (events : Events Scope Event) (c : Connector Scope)
    (e : Event) (schema wire : Text) (serialize : Fragment → Option Text) (n : ℕ)
    (small : n < 2 ^ 32) where
  -- What the bus makes of the fragments.
  abbrev pub all_numbered : List Fragment → List Fragment
  all_numbered = map (numbered env serialize n)

  -- The notification of the first fragment.
  abbrev pub first : Notification
  first = (populate env events e schema 0).notification

  heads :
      (i : ℕ) (part : Text) (f : Fragment)
      → f ≡ with_part env events (populate env events e schema i) i part
      → f.data_part ≡ 0
      → f.notification ≡ record first { payload = f.payload }
  heads i part f h zeroth =
      let is_first : i ≡ 0 = sym (ap (λ (g : Fragment). g.data_part) h) ∙ zeroth in
      ap (λ (g : Fragment). g.notification) h
      ∙ ap (λ k. record (populate env events e schema k).notification { payload = part }) is_first
      ∙ ap (λ t. record first { payload = t }) (sym (ap (λ (g : Fragment). g.payload) h))

  Cuts-IsPart :
      (fs : List Fragment) (before : List Text) (i offset : ℕ)
      → length before ≡ i
      → length (before ++ payloads fs) ≡ n
      → Cuts env events c e schema wire i offset fs
      → All (IsPart first (before ++ payloads fs)) (all_numbered fs)
  unfolding payloads
  Cuts-IsPart [] before i offset count all h = tt
  Cuts-IsPart (f ∷ fs) before i offset count all h = (
    (
      omega (arith, all, small),
      ap (get_elem? (before ++ f.payload ∷ payloads fs))
            (ap (λ (g : Fragment). g.data_part) h.0 ∙ sym count)
          ∙ get_elem?-middle before f.payload (payloads fs),
      heads i _ f h.0,
    ),
    subst (λ ps. All (IsPart first ps) (all_numbered fs))
        (append_assoc before (f.payload ∷ []) (payloads fs))
        (Cuts-IsPart fs (before ++ f.payload ∷ []) (i + 1)
          (offset + room env events c e schema wire i)
          (length-append before (f.payload ∷ []) ∙ ap (λ k. k + 1) count)
          (ap length (append_assoc before (f.payload ∷ []) (payloads fs)) ∙ all) h.1),
  )

  Cuts-later :
      (fs : List Fragment) (i j offset : ℕ)
      → j < i
      → Cuts env events c e schema wire i offset fs
      → All (λ g. j < g.data_part) (all_numbered fs)
  Cuts-later [] i j offset h cuts = tt
  Cuts-later (f ∷ fs) i j offset h cuts = (
    omega (arith, ap (λ (g : Fragment). g.data_part) cuts.0),
    Cuts-later fs (i + 1) j _ (omega arith) cuts.1,
  )

  Cuts-Distinct :
      (fs : List Fragment) (i offset : ℕ)
      → Cuts env events c e schema wire i offset fs
      → Distinct (all_numbered fs)
  Cuts-Distinct [] i offset cuts = tt
  Cuts-Distinct (f ∷ fs) i offset cuts = (
    apart (all_numbered fs) (Cuts-later fs (i + 1) i _ (omega arith) cuts.1),
    Cuts-Distinct fs (i + 1) _ cuts.1,
  )
    where
      number : f.data_part ≡ i
      number = ap (λ (g : Fragment). g.data_part) cuts.0

      apart :
          (gs : List Fragment)
          → All (λ g. i < g.data_part) gs
          → All (λ g. f.data_part ≢ g.data_part) gs
      apart [] h = tt
      apart (g ∷ gs) h = (λ same. omega (arith, number, same, h.0), apart gs h.1)

-- An event that is cut into two or more fragments, fewer than 2^32, whose fragments the bus
-- numbers and whose messages reach a receiver in any order and among others, is handed on
-- there exactly once, at the last of these messages, with the payload that its sender
-- serialized, unless its scope cannot be parsed, which is an exception there; nothing is
-- handed on at the messages before. This asks that the meta data leave more than the minimal
-- space in every fragment and no size wraps around, that what is written of a fragment is read
-- back, and that the receiver's pool holds nothing under the key of the fragments.
pub receptions-cut_wire :
    {Scope Event : Type 0} (env : Env) (events : Events Scope Event) (naming : Naming Scope)
    (serialize : Fragment → Text) (parse : Text → Option Fragment) (c : Connector Scope) (e : Event)
    (schema wire : Text) (fs : List Fragment) (groups : List Text) (key : Text) (es : Arrivals)
    (p : Pool)
    → (round_trip : (f : Fragment) → parse (serialize f) ≡ some f) → Fits env events c e schema wire
    → cut_wire env events c e (schema, wire) ≡ ok fs
    → 2 ≤ length fs
    → length fs < 2 ^ 32
    → lookup Text_discrete key p.assemblies ≡ none
    → Permᴰ
        (map (numbered env (λ f. some (serialize f)) (length fs)) fs)
        (fragments (of_key key es))
    → receptions env naming parse serialize groups key es p
      ≡ received_last env naming parse serialize
          (incoming env naming parse
            (some (record (populate env events e schema 0).notification { payload = wire })))
          (length fs)
unfolding payloads
receptions-cut_wire env events naming serialize parse c e schema wire fs groups key es p round_trip
      fits cut two small free arrived =
    let write : Fragment → Option Text = λ f. some (serialize f) in
    let n : Notification = first env events c e schema wire write (length fs) small in
    let cuts = cut_wire-Cuts env events c e schema wire fits fs cut in
    let count = length_payloads fs in
    let small' : length (payloads fs) < 2 ^ 32 = omega (arith, count, small) in
    let parts =
      Cuts-IsPart env events c e schema wire write (length fs) small fs [] 0 0 refl count cuts in
    receptions-received_last env naming parse serialize round_trip groups key n (payloads fs) es p
      free (omega (arith, count, two)) small' (All-Perm _ arrived parts)
      (Distinct-Perm arrived
        (Cuts-Distinct env events c e schema wire write (length fs) small fs 0 0 cuts))
      (sym (length-Perm arrived) ∙ length-map _ fs ∙ sym count)
    ∙ ap
        (λ t.
          received_last env naming parse serialize
            (incoming env naming parse (some (record n { payload = t }))) (length (payloads fs)))
        (Cuts-concat env events c e schema wire fits fs cuts)
    ∙ ap (received_last env naming parse serialize _) count
  where
    length_payloads : (fs : List Fragment) → length (payloads fs) ≡ length fs
    length_payloads fs = length-map _ fs

-- An event that fits into one fragment is handed on as soon as its message arrives, with the
-- payload that its sender serialized, unless its scope cannot be parsed, which is an exception
-- then; the receiver's pool stays as it is. This asks that the meta data leave more than the
-- minimal space in every fragment and no size wraps around, and that what is written of a
-- fragment is read back.
pub handle_message-cut_wire :
    {Scope Event : Type 0} (env : Env) (events : Events Scope Event) (naming : Naming Scope)
    (serialize : Fragment → Text) (parse : Text → Option Fragment) (c : Connector Scope) (e : Event)
    (schema wire : Text) (f : Fragment) (groups : List Text) (now : ℕ) (p : Pool)
    → (round_trip : (f : Fragment) → parse (serialize f) ≡ some f) → Fits env events c e schema wire
    → cut_wire env events c e (schema, wire) ≡ ok (f ∷ [])
    → handle_message env naming parse now
        (message_of env naming parse serialize groups (numbered env (λ f. some (serialize f)) 1 f))
        p
      ≡ (
        incoming env naming parse
            (some (record (populate env events e schema 0).notification { payload = wire })),
        p,
      )
unfolding handle_one payloads
handle_message-cut_wire env events naming serialize parse c e schema wire f groups now p round_trip
      fits cut =
    let write : Fragment → Option Text = λ f. some (serialize f) in
    let cuts = cut_wire-Cuts env events c e schema wire fits (f ∷ []) cut in
    let head =
      heads env events c e schema wire write 1 (omega arith) 0 _ f cuts.0
        (ap (λ (g : Fragment). g.data_part) cuts.0) in
    let whole : f.payload ≡ wire =
      sym (append-nil f.payload) ∙ Cuts-concat env events c e schema wire fits (f ∷ []) cuts in
    handle_direct env naming parse serialize round_trip groups now (numbered env write 1 f) p
      (ground arith)
    ∙ ap (λ n. (incoming env naming parse (some n), p))
        (head
          ∙ ap (λ t. record (populate env events e schema 0).notification { payload = t }) whole)
