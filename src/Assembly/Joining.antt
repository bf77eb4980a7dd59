-- ===== src/Assembly/Joining.antt =====
-- Fragments that arrive in any order are joined into the payload that they were cut from.
use rsb_spread_cpp.Base.{
  ℕ, zero, suc, ◌+◌, ◌^◌, ◌≤◌, ◌<◌, ◌≡◌, refl, sym, ap, ◌∙◌, ◌≢◌, Bool, true, false, Option, none,
  some, List, [], ◌∷◌, arith, length, get_elem?, set, replicate, length-set, length-replicate,
  get_elem?-set_ne, All, Text, Result, ok, Action, ◌>>=◌, pure, >>=-ok, check_ok,
}
use rsb_spread_cpp.Spread.{Env}
use rsb_spread_cpp.Protocol.{Notification, Fragment}
use rsb_spread_cpp.Assembly.Payload.{
  join_from-concat, Headed-replicate, concat, Headed-set, Headed, Holds, Holds-replicate, Holds-set,
}
use rsb_spread_cpp.Assembly.{
  is_complete, get_complete_notification, empty_assembly, Assembly, add, join_from,
}
use rsb_spread_cpp.Assembly.Slots.{
  count_some, placed, IsCounted, placed-IsCounted, empty_assembly-IsCounted, Filled-of_count,
  count_some-replicate, count_some-set, add_free,
}

-- A fragment that carries the part of its number, and the notification if it is the first.
abbrev pub IsPart : Notification → List Text → Fragment → Type 0
IsPart n ps f =
    (f.num_data_parts ≡ length ps)
    × (get_elem? ps f.data_part ≡ some f.payload)
    × (f.data_part ≡ 0 → f.notification ≡ record n { payload = f.payload })

abbrev pub Distinct : List Fragment → Type 0
Distinct [] = Unit {0}
Distinct (f ∷ fs) = All (λ g. f.data_part ≢ g.data_part) fs × Distinct fs

abbrev Free : List (Option Fragment) → List Fragment → Type 0
Free store = All (λ f. get_elem? store f.data_part ≡ some none)

-- Adding fragments one after the other, and what `add` returned for each.
unfoldable pub add_all : Env → List Fragment → Action Assembly (List Bool)
add_all env [] = pure []
add_all env (f ∷ fs) = do done ← add env f; rest ← add_all env fs; pure (done ∷ rest)

abbrev pub place_all : List Fragment → Assembly → Assembly
place_all [] a = a
place_all (f ∷ fs) a = place_all fs (placed f a)

-- `true` for the last of so many, and for no other.
abbrev pub last_only : ℕ → List Bool
last_only zero = []
last_only (suc zero) = true ∷ []
last_only (suc (suc n)) = false ∷ last_only (suc n)

-- The state between two fragments: these are still to come, and they fill the assembly.
pub record IsPending (n : Notification) (ps : List Text) (fs : List Fragment) (a : Assembly)
    : Type 0 where
  pub counted : IsCounted a
  pub sized : length a.store ≡ length ps
  pub holds : Holds ps a.store
  pub headed : Headed n a.store
  pub parts : All (IsPart n ps) fs
  pub distinct : Distinct fs
  pub free : Free a.store fs
  pub missing : count_some a.store + length fs ≡ length a.store

Free-set :
    (f : Fragment) (fs : List Fragment) (store : List (Option Fragment))
    → All (λ g. f.data_part ≢ g.data_part) fs
    → Free store fs
    → Free (set store f.data_part (some f)) fs
Free-set f [] store ne free = tt
Free-set f (g ∷ fs) store ne free = (
  get_elem?-set_ne store f.data_part g.data_part (some f) ne.0 ∙ free.0,
  Free-set f fs store ne.1 free.1,
)

Free-replicate :
    (k : ℕ) (fs : List Fragment) → All (λ f. f.data_part < k) fs → Free (replicate k none) fs
Free-replicate k [] h = tt
Free-replicate k (f ∷ fs) h = (slot k f.data_part h.0, Free-replicate k fs h.1)
  where
    slot : (k i : ℕ) → i < k → get_elem? {A = Option Fragment} (replicate k none) i ≡ some none
    slot zero i h = elim h [ ]
    slot (suc k) zero h = refl
    slot (suc k) (suc i) h = slot k i (omega arith)

in_range : (ps : List Text) (i : ℕ) (t : Text) → get_elem? ps i ≡ some t → i < length ps
in_range [] i t e = absurd (cc)
in_range (p ∷ ps) zero t e = omega arith
in_range (p ∷ ps) (suc i) t e = omega (arith, in_range ps i t e)

abbrev pub is_last : List Fragment → Bool
is_last [] = true
is_last (f ∷ fs) = false

module _ (env : Env) (n : Notification) (ps : List Text) where
  parts_in_range :
      (fs : List Fragment) → All (IsPart n ps) fs → All (λ f. f.data_part < length ps) fs
  parts_in_range [] h = tt
  parts_in_range (f ∷ fs) h = (in_range ps f.data_part f.payload h.0.1, parts_in_range fs h.1)

  pub placed-IsPending :
      (f : Fragment) (fs : List Fragment) (a : Assembly)
      → IsPending n ps (f ∷ fs) a
      → IsPending n ps fs (placed f a)
  placed-IsPending f fs a v = record {
    counted = placed-IsCounted f a v.free.0 v.counted;
    sized = length-set a.store f.data_part (some f) ∙ v.sized;
    holds = Holds-set ps a.store f.data_part f v.parts.0.1 v.holds;
    headed = Headed-set n a.store f.data_part f v.parts.0.2 v.headed;
    parts = v.parts.1;
    distinct = v.distinct.1;
    free = Free-set f fs a.store v.distinct.0 v.free.1;
    missing = omega (
      arith,
      v.missing,
      length-set a.store f.data_part (some f),
      count_some-set a.store f.data_part f v.free.0,
    );
  }

  pub complete_if_last :
      (fs : List Fragment) (a : Assembly) → IsPending n ps fs a → is_complete a ≡ is_last fs
  complete_if_last [] a v = ground (arith, v.counted.counted, v.missing)
  complete_if_last (f ∷ fs) a v = ground (arith, v.counted.counted, v.missing)

  pub add_pending :
      (f : Fragment) (fs : List Fragment) (a : Assembly)
      → IsPending n ps (f ∷ fs) a
      → add env f a ≡ (ok (is_last fs), placed f a)
  add_pending f fs a v =
      add_free env f a v.counted v.free.0 (v.parts.0.0 ∙ sym v.sized)
      ∙ ap (λ (b : Bool). (ok b, placed f a)) (complete_if_last fs _ (placed-IsPending f fs a v))

  add_all-pending :
      (fs : List Fragment) (a : Assembly)
      → IsPending n ps fs a
      → add_all env fs a ≡ (ok (last_only (length fs)), place_all fs a)
  unfolding add_all
  add_all-pending [] a v = refl
  add_all-pending (f ∷ []) a v =
      >>=-ok (add env f) (λ done. add_all env [] >>= λ rest. pure (done ∷ rest)) a
        (add_pending f [] a v)
  add_all-pending (f ∷ g ∷ fs) a v =
      >>=-ok (add env f) (λ done. add_all env (g ∷ fs) >>= λ rest. pure (done ∷ rest)) a
        (add_pending f (g ∷ fs) a v)
      ∙ >>=-ok (add_all env (g ∷ fs)) (λ rest. pure (false ∷ rest)) (placed f a)
          (add_all-pending (g ∷ fs) (placed f a) (placed-IsPending f (g ∷ fs) a v))

  place_all-IsPending :
      (fs : List Fragment) (a : Assembly) → IsPending n ps fs a → IsPending n ps [] (place_all fs a)
  place_all-IsPending [] a v = v
  place_all-IsPending (f ∷ fs) a v = place_all-IsPending fs (placed f a) (placed-IsPending f fs a v)

  pub get_complete_notification-pending :
      (a : Assembly)
      → 1 ≤ length ps
      → IsPending n ps [] a
      → get_complete_notification env a ≡ (ok (record n { payload = concat ps }), a)
  unfolding get_complete_notification
  get_complete_notification-pending a some_part v =
      check_ok env.ndebug (is_complete a) (λ b. (join_from a.store, b)) a
        (ground (arith, v.counted.counted, v.missing))
      ∙ ap (λ (r : Result Notification). (r, a))
          (join_from-concat n ps a.store v.holds v.headed
            (Filled-of_count a.store (omega (arith, v.missing))) (omega (arith, v.sized)))

  pub empty_assembly-IsPending :
      (now : ℕ) (fs : List Fragment)
      → length ps < 2 ^ 32
      → All (IsPart n ps) fs
      → Distinct fs
      → length fs ≡ length ps
      → IsPending n ps fs (empty_assembly (length ps) now)
  empty_assembly-IsPending now fs small parts distinct whole =
      let len = length-replicate {A = Option Fragment} (length ps) none in
      record {
        counted = empty_assembly-IsCounted (length ps) now small;
        sized = len;
        holds = Holds-replicate ps;
        headed = Headed-replicate n (length ps);
        parts = parts;
        distinct = distinct;
        free = Free-replicate (length ps) fs (parts_in_range fs parts);
        missing = omega (arith, whole, count_some-replicate (length ps), len);
      }

-- The fragments of a notification that was cut into parts, each of them once and in any order, are
-- all accepted by an empty assembly; `add` says that it is complete at the last of them and not
-- before; and the assembly then gives the notification with the payload put together from all
-- parts in their order. There is at least one part and there are fewer than 2^32.
pub get_complete_notification-add_all :
    (env : Env) (n : Notification) (ps : List Text) (now : ℕ) (fs : List Fragment)
    → 1 ≤ length ps
    → length ps < 2 ^ 32
    → All (IsPart n ps) fs
    → Distinct fs
    → length fs ≡ length ps
    → let a = place_all fs (empty_assembly (length ps) now) in
      (add_all env fs (empty_assembly (length ps) now) ≡ (ok (last_only (length fs)), a))
      × (get_complete_notification env a ≡ (ok (record n { payload = concat ps }), a))
get_complete_notification-add_all env n ps now fs some_part small parts distinct whole =
    let v = empty_assembly-IsPending env n ps now fs small parts distinct whole in
    (
      add_all-pending env n ps fs _ v,
      get_complete_notification-pending env n ps _ some_part (place_all-IsPending env n ps fs _ v),
    )
