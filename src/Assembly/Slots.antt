-- ===== src/Assembly/Slots.antt =====
-- The slots of an assembly: how many are filled, and what `add` does to them.
use rsb_spread_cpp.Base.{
  ◌∙◌, ℕ, zero, suc, ◌+◌, ◌%◌, ◌^◌, ◌≤◌, ◌<◌, ◌≡◌, refl, sym, ap, subst, ◌≢◌, ◌↔◌, ◌⊎◌, inl, inr,
  Bool, true, false, ◌||◌, Option, none, some, List, [], ◌∷◌, arith, ◌==◌, Bool-cases, length,
  get_elem?, set, replicate, length-set, length-replicate, Result, ok, throw, fault, check_ok,
  check_fails,
}
use rsb_spread_cpp.Spread.{Env}
use rsb_spread_cpp.Protocol.{Fragment}
use rsb_spread_cpp.Assembly.{Assembly, is_complete, add_at, add, empty_assembly}

abbrev pub count_some : List (Option Fragment) → ℕ
count_some [] = 0
count_some (none ∷ store) = count_some store
count_some (some f ∷ store) = suc (count_some store)

abbrev pub Filled : List (Option Fragment) → Type 0
Filled [] = Unit {0}
Filled (none ∷ store) = ⊥
Filled (some f ∷ store) = Filled store

pub count_some-le : (store : List (Option Fragment)) → count_some store ≤ length store
count_some-le [] = omega arith
count_some-le (none ∷ store) = omega (arith, count_some-le store)
count_some-le (some f ∷ store) = omega (arith, count_some-le store)

pub Filled-of_count :
    (store : List (Option Fragment)) → count_some store ≡ length store → Filled store
Filled-of_count [] e = tt
Filled-of_count (none ∷ store) e = absurd (omega (arith, count_some-le store))
Filled-of_count (some f ∷ store) e = Filled-of_count store (omega arith)

pub count_some-set :
    (store : List (Option Fragment)) (i : ℕ) (f : Fragment)
    → get_elem? store i ≡ some none
    → count_some (set store i (some f)) ≡ count_some store + 1
count_some-set [] i f e = cc
count_some-set (none ∷ store) zero f e = omega arith
count_some-set (some g ∷ store) zero f e = cc
count_some-set (none ∷ store) (suc i) f e = count_some-set store i f e
count_some-set (some g ∷ store) (suc i) f e = omega (arith, count_some-set store i f e)

pub count_some-replicate : (n : ℕ) → count_some (replicate n none) ≡ 0
count_some-replicate zero = refl
count_some-replicate (suc n) = count_some-replicate n

-- The counter counts the filled slots.
pub record IsCounted (a : Assembly) : Type 0 where
  pub counted : a.received_parts ≡ count_some a.store
  pub small : length a.store < 2 ^ 32

pub empty_assembly-IsCounted : (n now : ℕ) → n < 2 ^ 32 → IsCounted (empty_assembly n now)
empty_assembly-IsCounted n now h = record {
  counted = sym (count_some-replicate n);
  small = rw (length-replicate {A = Option Fragment} n none) h;
}

-- A fragment in a free slot.
abbrev pub placed : Fragment → Assembly → Assembly
placed f a = record a {
  store = set a.store f.data_part (some f);
  received_parts = a.received_parts + 1;
}

pub placed-IsCounted :
    (f : Fragment) (a : Assembly)
    → get_elem? a.store f.data_part ≡ some none
    → IsCounted a
    → IsCounted (placed f a)
placed-IsCounted f a e c = record {
  counted = omega (arith, c.counted, count_some-set a.store f.data_part f e);
  small = rw (length-set a.store f.data_part (some f)) c.small;
}

-- How `add` may end.
abbrev pub Adds : Env → Fragment → Assembly → Result Bool × Assembly → Type 0
Adds env f a (ok done, b) =
    (get_elem? a.store f.data_part ≡ some none)
    × (b ≡ placed f a)
    × ((done ≡ true) ↔ Filled b.store)
Adds env f a (throw e, b) =
    (b ≡ a) × ((g : Fragment) × (get_elem? a.store f.data_part ≡ some (some g)))
Adds env f a (fault x, b) =
    (b ≡ a)
    × ((get_elem? a.store f.data_part ≡ none)
        ⊎ ((env.ndebug ≡ false) × (f.num_data_parts ≢ length a.store)))

count_of_Filled : (store : List (Option Fragment)) → Filled store → count_some store ≡ length store
count_of_Filled [] h = refl
count_of_Filled (none ∷ store) h = absurd h
count_of_Filled (some f ∷ store) h = ap suc (count_of_Filled store h)

module _ (env : Env) (f : Fragment) (a : Assembly) (c : IsCounted a) where
  module _ (e : get_elem? a.store f.data_part ≡ some none) where
    unwrapped : (a.received_parts + 1) % 2 ^ 32 ≡ a.received_parts + 1
    unwrapped =
        let b = placed-IsCounted f a e c in
        let set_len = length-set a.store f.data_part (some f) in
        omega (arith, b.counted, count_some-le (placed f a).store, set_len, c.small)

    complete_iff : (is_complete (placed f a) ≡ true) ↔ Filled (placed f a).store
    complete_iff =
        let b = placed-IsCounted f a e c in
        (
          λ done. Filled-of_count (placed f a).store (ground (arith, b.counted)),
          λ h. ground (arith, b.counted, count_of_Filled (placed f a).store h),
        )

  add_at-Adds :
      (slot : Option (Option Fragment))
      → get_elem? a.store f.data_part ≡ slot
      → Adds env f a (add_at env f slot a)
  unfolding add_at
  add_at-Adds none e = (refl, inl e)
  add_at-Adds (some none) e = rw (unwrapped e) (e, refl, complete_iff e)
  add_at-Adds (some (some g)) e = (refl, (g, e))

  -- Where the counter counts the filled slots, `add` fills the slot that the fragment's number
  -- selects if it is free, and says that the assembly is complete exactly if every slot is filled
  -- then; it throws and changes nothing if that slot is taken; and it is a fault only for a number
  -- behind the last slot or, in a build with asserts, for another number of parts.
  pub add-Adds : Adds env f a (add env f a)
  unfolding add
  add-Adds = elim (Bool-cases (env.ndebug || f.num_data_parts == length a.store)) [
    | inl right ↦
        subst (Adds env f a)
          (sym (check_ok env.ndebug _ (add_at env f (get_elem? a.store f.data_part)) a right))
          (add_at-Adds _ refl)
    | inr wrong ↦
        subst (Adds env f a)
          (sym (check_fails env.ndebug _ (add_at env f (get_elem? a.store f.data_part)) a wrong))
          (refl, inr (ground arith, ground arith))
  ]

  -- A fragment of the right kind in a free slot.
  pub add_free :
      get_elem? a.store f.data_part ≡ some none
      → f.num_data_parts ≡ length a.store
      → add env f a ≡ (ok (is_complete (placed f a)), placed f a)
  unfolding add add_at
  add_free e n =
      check_ok env.ndebug _ (add_at env f (get_elem? a.store f.data_part)) a (ground arith)
      ∙ rw (e, unwrapped e)
