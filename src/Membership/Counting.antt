-- ===== src/Membership/Counting.antt =====
-- The counts: what `join` and `leave` do to the uses of each group.
use rsb_spread_cpp.Base.{
  ℕ, ◌+◌, ◌-◌, ◌%◌, ◌≤◌, ◌<◌, ◌≡◌, refl, sym, ap, subst, ◌≢◌, Option, none, some, [], ◌∷◌, arith,
  ℕ_discrete, ◌==◌, if◌then◌else◌, Text, Text_discrete, lookup, insert, erase, lookup-insert_self,
  lookup-insert_ne, lookup-erase_self, lookup-erase_ne, Fault, Result, ok, throw, fault, zoom,
  settle, zoom->>=,
}
use rsb_spread_cpp.Spread.{Env}
use rsb_spread_cpp.Connection
use rsb_spread_cpp.Connection.{Link}
use rsb_spread_cpp.Membership.{
  decremented, put_link, set_count, Membership, GroupMap, uint_mod, join, leave, join_at, leave_at,
}

abbrev count_of : Option ℕ → ℕ
count_of none = 0
count_of (some n) = n

-- The uses of a group.
abbrev pub uses : Text → Membership → ℕ
uses g s = count_of (lookup Text_discrete g s.groups)

-- No group is kept with a count of 0, and no count has wrapped around.
abbrev pub IsCounted : GroupMap → Type 0
IsCounted [] = Unit {0}
IsCounted ((g, n) ∷ m) = (1 ≤ n) × (n < uint_mod) × IsCounted m

insert-IsCounted :
    (g : Text) (n : ℕ) (m : GroupMap)
    → 1 ≤ n
    → n < uint_mod
    → IsCounted m
    → IsCounted (insert Text_discrete g n m)
insert-IsCounted g n [] p q c = ground arith
insert-IsCounted g n ((h, k) ∷ m) p q c = ground (arith, insert-IsCounted g n m p q c.2)

erase-IsCounted : (g : Text) (m : GroupMap) → IsCounted m → IsCounted (erase Text_discrete g m)
erase-IsCounted g [] c = tt
erase-IsCounted g ((h, k) ∷ m) c = ground (arith, erase-IsCounted g m c.2)

lookup-IsCounted :
    (g : Text) (m : GroupMap) (n : ℕ)
    → IsCounted m
    → lookup Text_discrete g m ≡ some n
    → (1 ≤ n) × (n < uint_mod)
lookup-IsCounted g [] n c e = absurd (cc)
lookup-IsCounted g ((h, k) ∷ m) n c e = ground (arith, lookup-IsCounted g m n c.2)

-- The uses of `g` went up by one, and no other group's changed.
abbrev pub Raised : Text → Membership → Membership → Type 0
Raised g s t = (uses g t ≡ uses g s + 1) × ((h : Text) → h ≢ g → uses h t ≡ uses h s)

abbrev pub Lowered : Text → Membership → Membership → Type 0
Lowered g s t = (uses g t + 1 ≡ uses g s) × ((h : Text) → h ≢ g → uses h t ≡ uses h s)

-- How `join` may end.
abbrev pub Joins : Env → Text → Membership → Result (Unit {0}) × Membership → Type 0
Joins env g s (ok _, t) =
    Raised g s t
    × IsCounted t.groups
    × (t.link ≡ (if uses g s == 0 then (Connection.join env g s.link).1 else s.link))
Joins env g s (throw e, t) =
    (uses g s ≡ 0) × (t.groups ≡ s.groups) × ((throw e, t.link) ≡ Connection.join env g s.link)
Joins env g s (fault x, t) = ⊥

-- How `leave` may end.
abbrev pub Leaves : Env → Text → Membership → Result (Unit {0}) × Membership → Type 0
Leaves env g s (ok _, t) =
    Lowered g s t
    × IsCounted t.groups
    × (t.link ≡ (if uses g s == 1 then (Connection.leave env g s.link).1 else s.link))
Leaves env g s (throw e, t) =
    Lowered g s t
    × IsCounted t.groups
    × (uses g s ≡ 1)
    × ((throw e, t.link) ≡ Connection.leave env g s.link)
Leaves env g s (fault x, t) = uses g s ≡ 0

-- Joining at the daemon returns or throws.
pub join_no_fault :
    (env : Env) (g : Text) (l : Link) {x : Fault} → (Connection.join env g l).0 ≡ fault x → ⊥
unfolding Connection.join
join_no_fault env g l e = ground arith

leave_no_fault :
    (env : Env) (g : Text) (l : Link) {x : Fault} → (Connection.leave env g l).0 ≡ fault x → ⊥
unfolding Connection.leave
leave_no_fault env g l e = ground arith

module _ (env : Env) (g : Text) (s : Membership) where
  uses-insert_ne :
      (h : Text) (n : ℕ) (m : GroupMap)
      → h ≢ g
      → count_of (lookup Text_discrete h (insert Text_discrete g n m))
        ≡ count_of (lookup Text_discrete h m)
  uses-insert_ne h n m ne = ap count_of (lookup-insert_ne Text_discrete h g n m ne)

  uses-erase_ne :
      (h : Text) (m : GroupMap)
      → h ≢ g
      → count_of (lookup Text_discrete h (erase Text_discrete g m))
        ≡ count_of (lookup Text_discrete h m)
  uses-erase_ne h m ne = ap count_of (lookup-erase_ne Text_discrete h g m ne)

  lowered :
      lookup Text_discrete g s.groups ≡ some 1
      → Lowered g s (record s { groups = erase Text_discrete g s.groups })
  lowered l = (
    ground (arith, lookup-erase_self Text_discrete g s.groups),
    λ h ne. uses-erase_ne h s.groups ne,
  )

  module _ (c : IsCounted s.groups) where
    joined-Joins :
        (r : Result (Unit {0}) × Link)
        → Connection.join env g s.link ≡ r
        → lookup Text_discrete g s.groups ≡ none
        → Joins env g s (settle put_link (λ _. set_count g 1) s r)
    joined-Joins (ok tt, k) e l = (
      (
        ground (arith, lookup-insert_self Text_discrete g 1 s.groups),
        λ h ne. uses-insert_ne h 1 s.groups ne,
      ),
      insert-IsCounted g 1 s.groups (omega arith) (omega arith) c,
      rw l (ground arith),
    )
    joined-Joins (throw x, k) e l = (ground arith, refl, sym e)
    joined-Joins (fault x, k) e l = join_no_fault env g s.link {x = x} (ground arith)

    join_at-Joins :
        (o : Option ℕ)
        → lookup Text_discrete g s.groups ≡ o
        → uses g s + 1 < uint_mod
        → Joins env g s (join_at env g o s)
    unfolding join_at
    join_at-Joins none l small =
        subst (Joins env g s)
          (sym (zoom->>= (λ t. t.link) put_link (Connection.join env g) (λ _. set_count g 1) s))
          (joined-Joins _ refl l)
    join_at-Joins (some n) l small =
        let same : (n + 1) % uint_mod ≡ n + 1 = ground arith in
        rw same (
          (
            ground (arith, lookup-insert_self Text_discrete g (n + 1) s.groups),
            λ h ne. uses-insert_ne h (n + 1) s.groups ne,
          ),
          insert-IsCounted g (n + 1) s.groups (omega arith) (ground arith) c,
          ground (arith, lookup-IsCounted g s.groups n c l),
        )

    kept :
        (n : ℕ)
        → (1 ≤ n) × (n < uint_mod)
        → n ≢ 1
        → leave_at env g (some n) s ≡ set_count g (n - 1) s
    unfolding leave_at
    kept n h ne = let e : decremented n ≡ n - 1 = omega arith in rw e (ground arith)

    left-Leaves :
        (r : Result (Unit {0}) × Link)
        → Connection.leave env g s.link ≡ r
        → lookup Text_discrete g s.groups ≡ some 1
        → Leaves env g s (
            zoom
              (λ t. t.link)
              put_link
              (λ _. r)
              (record s { groups = erase Text_discrete g s.groups }))
    left-Leaves (ok tt, k) e l = (
      lowered l,
      erase-IsCounted g s.groups c,
      ground (arith, ap (λ (t : Result (Unit {0}) × Link). t.1) e),
    )
    left-Leaves (throw x, k) e l = (lowered l, erase-IsCounted g s.groups c, ground arith, sym e)
    left-Leaves (fault x, k) e l = absurd (leave_no_fault env g s.link {x = x} (ground arith))

    leave_at-Leaves :
        (o : Option ℕ) → lookup Text_discrete g s.groups ≡ o → Leaves env g s (leave_at env g o s)
    unfolding leave_at
    leave_at-Leaves none l = ground arith
    leave_at-Leaves (some n) l = elim (ℕ_discrete n 1) [
      | yes e ↦ rw e (left-Leaves (Connection.leave env g s.link) refl (rw e at l))
      | no ne ↦ rw (kept n (lookup-IsCounted g s.groups n c l) ne) (
        (
          ground (
            arith,
            lookup-insert_self Text_discrete g (n - 1) s.groups,
            lookup-IsCounted g s.groups n c l,
          ),
          λ h k. uses-insert_ne h (n - 1) s.groups k,
        ),
        insert-IsCounted g (n - 1) s.groups (ground (arith, lookup-IsCounted g s.groups n c l))
            (ground (arith, lookup-IsCounted g s.groups n c l)) c,
        ground arith,
      )
    ]

-- Joining a group counts one more use of it and no use of another; the daemon is asked exactly if
-- the group had no use, and if asking it throws, so does `join`, and the counts stay. This asks
-- that the counts are sound and that the group's count does not reach 2^32.
pub join-Joins :
    (env : Env) (g : Text) (s : Membership)
    → IsCounted s.groups
    → uses g s + 1 < uint_mod
    → Joins env g s (join env g s)
unfolding join
join-Joins env g s c small = join_at-Joins env g s c (lookup Text_discrete g s.groups) refl small

-- Leaving a group counts one use of it less and no other's; the daemon is asked exactly if that was
-- the last use, and an exception of its answer passes through with the use given up all the same.
-- Leaving a group without uses is a fault, and the only one.
pub leave-Leaves :
    (env : Env) (g : Text) (s : Membership) → IsCounted s.groups → Leaves env g s (leave env g s)
unfolding leave
leave-Leaves env g s c = leave_at-Leaves env g s c (lookup Text_discrete g s.groups) refl
