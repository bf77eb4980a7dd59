-- ===== src/Assembly/Payload.antt =====
-- The payload that the slots of an assembly make up.
use rsb_spread_cpp.Base.{
  refl, ap₂, ℕ, zero, suc, ◌≤◌, ◌≡◌, sym, ap, ◌∙◌, Option, none, some, List, [], ◌∷◌, ◌++◌, arith,
  length, get_elem?, set, replicate, Text, ok,
}
use mathlib.Core.List.{append-nil, append_assoc}
use rsb_spread_cpp.Protocol.{Notification, Fragment}
use rsb_spread_cpp.Assembly.{append_payloads, join_from}
use rsb_spread_cpp.Assembly.Slots.{Filled}

-- The payload that the parts make up.
abbrev pub concat : List Text → Text
concat [] = []
concat (p ∷ ps) = p ++ concat ps

-- Every filled slot holds the part of its place.
abbrev pub Holds : List Text → List (Option Fragment) → Type 0
Holds [] [] = Unit {0}
Holds [] (o ∷ store) = ⊥
Holds (p ∷ ps) [] = ⊥
Holds (p ∷ ps) (none ∷ store) = Holds ps store
Holds (p ∷ ps) (some f ∷ store) = (f.payload ≡ p) × Holds ps store

pub Holds-replicate : (ps : List Text) → Holds ps (replicate (length ps) none)
Holds-replicate [] = tt
Holds-replicate (p ∷ ps) = Holds-replicate ps

pub Holds-set :
    (ps : List Text) (store : List (Option Fragment)) (i : ℕ) (f : Fragment)
    → get_elem? ps i ≡ some f.payload
    → Holds ps store
    → Holds ps (set store i (some f))
Holds-set [] store i f e h = absurd (cc)
Holds-set (p ∷ ps) [] i f e h = absurd h
Holds-set (p ∷ ps) (none ∷ store) zero f e h = ground arith
Holds-set (p ∷ ps) (some g ∷ store) zero f e h = ground arith
Holds-set (p ∷ ps) (none ∷ store) (suc i) f e h = Holds-set ps store i f e h
Holds-set (p ∷ ps) (some g ∷ store) (suc i) f e h = (h.0, Holds-set ps store i f e h.1)

append_payloads-concat :
    (ps : List Text) (store : List (Option Fragment)) (text : Text)
    → Holds ps store
    → Filled store
    → append_payloads text store ≡ ok (text ++ concat ps)
unfolding append_payloads
append_payloads-concat [] [] text h full = ap ok (sym (append-nil text))
append_payloads-concat [] (o ∷ store) text h full = absurd h
append_payloads-concat (p ∷ ps) [] text h full = absurd h
append_payloads-concat (p ∷ ps) (none ∷ store) text h full = absurd full
append_payloads-concat (p ∷ ps) (some f ∷ store) text h full =
    append_payloads-concat ps store (text ++ f.payload) h.1 full
    ∙ ap ok (append_assoc text f.payload (concat ps) ∙ ap (λ t. text ++ (t ++ concat ps)) h.0)

-- The first slot, if filled, holds the notification itself, but for the payload.
abbrev pub Headed : Notification → List (Option Fragment) → Type 0
Headed n (some f ∷ store) = f.notification ≡ record n { payload = f.payload }
Headed n _ = Unit {0}

pub Headed-replicate : (n : Notification) (k : ℕ) → Headed n (replicate k none)
Headed-replicate n zero = tt
Headed-replicate n (suc k) = tt

pub Headed-set :
    (n : Notification) (store : List (Option Fragment)) (i : ℕ) (f : Fragment)
    → (i ≡ 0 → f.notification ≡ record n { payload = f.payload })
    → Headed n store
    → Headed n (set store i (some f))
Headed-set n [] i f e h = tt
Headed-set n (none ∷ store) zero f e h = e refl
Headed-set n (some g ∷ store) zero f e h = e refl
Headed-set n (none ∷ store) (suc i) f e h = tt
Headed-set n (some g ∷ store) (suc i) f e h = h

-- A full store is joined into the notification with the whole payload.
pub join_from-concat :
    (n : Notification) (ps : List Text) (store : List (Option Fragment))
    → Holds ps store
    → Headed n store
    → Filled store
    → 1 ≤ length store
    → join_from store ≡ ok (record n { payload = concat ps })
unfolding join_from
join_from-concat n ps [] h head full some_part = absurd (omega arith)
join_from-concat n ps (none ∷ store) h head full some_part = absurd full
join_from-concat n [] (some f ∷ store) h head full some_part = absurd h
join_from-concat n (p ∷ ps) (some f ∷ store) h head full some_part =
    rw (append_payloads-concat ps store f.payload h.1 full) (
      ap ok (
        ap₂ (λ (m : Notification) (t : Text). record m { payload = t }) head
          (ap (λ t. t ++ concat ps) h.0)))
