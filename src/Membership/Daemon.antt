-- ===== src/Membership/Daemon.antt =====
-- The groups that the daemon has this session in, and that they include every group in use.
use rsb_spread_cpp.Base.{
  ℕ, ◌≡◌, refl, sym, ◌∙◌, subst, ◌≢◌, inl, inr, ite, Bool, true, false, Option, none, some, List,
  [], ◌∷◌, arith, ◌==◌, Bool-cases, All, pos, ℤ_discrete, Text, Text_discrete, c_str, lookup,
  insert, lookup-insert_ne, lookup-erase_self, lookup-erase_ne, Exception, Result, ok, throw, fault,
  settle, zoom->>=,
}
use rsb_spread_cpp.Spread.{Call, connect, disconnect, multicast, multigroup_multicast, History, Env}
use rsb_spread_cpp.Connection
use rsb_spread_cpp.Connection.{Link}
use rsb_spread_cpp.Membership.Counting.{join_no_fault}
use rsb_spread_cpp.Membership.{
  decremented, Membership, new_membership, join, leave, join_at, leave_at, last_use, put_link,
  set_count,
}

-- Whether the session is in the group after these calls: a call counts if it was answered by 0.
abbrev pub member : Env → History → Text → Bool
member env [] g = false
member env (connect t ∷ h) g = false
member env (disconnect m ∷ h) g = false
member env (Call.join m k ∷ h) g =
    ite (Text_discrete k g) (ite (ℤ_discrete (env.sp_join h m k) (pos 0)) true (member env h g))
      (member env h g)
member env (Call.leave m k ∷ h) g =
    ite (Text_discrete k g) (ite (ℤ_discrete (env.sp_leave h m k) (pos 0)) false (member env h g))
      (member env h g)
member env (Call.receive m ∷ h) g = member env h g
member env (multicast m q k d ∷ h) g = member env h g
member env (multigroup_multicast m q ks d ∷ h) g = member env h g

-- The session is in every group that the manager keeps a count for.
abbrev pub IsBacked : Env → Membership → Type 0
IsBacked env s =
    (h : Text) → lookup Text_discrete h s.groups ≢ none → member env s.link.history h ≡ true

module _ (env : Env) (g : Text) (plain : c_str g ≡ g) where
  module _ (l : Link) (h : Text) where
    member-join_ne :
        h ≢ g → member env (Connection.join env g l).1.history h ≡ member env l.history h
    unfolding Connection.join
    member-join_ne ne = ground arith

    member-join_throw :
        (x : Exception)
        → (Connection.join env g l).0 ≡ throw x
        → member env (Connection.join env g l).1.history h ≡ member env l.history h
    unfolding Connection.join
    member-join_throw x e = ground arith

    member-leave_ne :
        h ≢ g → member env (Connection.leave env g l).1.history h ≡ member env l.history h
    unfolding Connection.leave
    member-leave_ne ne = ground arith

  member-join_self :
      (l : Link)
      → (Connection.join env g l).0 ≡ ok tt
      → member env (Connection.join env g l).1.history g ≡ true
  unfolding Connection.join
  member-join_self l e = ground arith

  -- Counting a group that already has a count.
  recounted-IsBacked :
      (s : Membership) (n k : ℕ)
      → lookup Text_discrete g s.groups ≡ some n
      → IsBacked env s
      → IsBacked env (record s { groups = insert Text_discrete g k s.groups })
  recounted-IsBacked s n k l b h = λ used. elim (Text_discrete h g) [
    | yes e ↦ rw e (b g (λ missing. cc))
    | no ne ↦ b h (λ missing. used (lookup-insert_ne Text_discrete h g k s.groups ne ∙ missing))
  ]

  joined-IsBacked :
      (s : Membership) (r : Result (Unit {0}) × Link)
      → Connection.join env g s.link ≡ r
      → IsBacked env s
      → IsBacked env (settle put_link (λ _. set_count g 1) s r).1
  joined-IsBacked s (ok tt, k) e b h = λ used. elim (Text_discrete h g) [
    | yes same ↦ rw same (ground (arith, member-join_self s.link))
    | no ne ↦ ground (
      arith,
      member-join_ne s.link h ne,
      b h (λ missing. used (lookup-insert_ne Text_discrete h g 1 s.groups ne ∙ missing)),
    )
  ]
  joined-IsBacked s (throw x, k) e b h =
      λ used. ground (arith, member-join_throw s.link h x, b h used)
  joined-IsBacked s (fault x, k) e b h =
      λ used. absurd (join_no_fault env g s.link {x = x} (ground arith))

  join_at-IsBacked :
      (s : Membership) (o : Option ℕ)
      → lookup Text_discrete g s.groups ≡ o
      → IsBacked env s
      → IsBacked env (join_at env g o s).1
  unfolding join_at
  join_at-IsBacked s none l b =
      subst (λ (r : Result (Unit {0}) × Membership). IsBacked env r.1)
        (sym (zoom->>= (λ t. t.link) put_link (Connection.join env g) (λ _. set_count g 1) s))
        (joined-IsBacked s _ refl b)
  join_at-IsBacked s (some n) l b = recounted-IsBacked s n _ l b

  last_use-IsBacked : (s : Membership) → IsBacked env s → IsBacked env (last_use env g s).1
  unfolding last_use
  last_use-IsBacked s b h = λ used. elim (Text_discrete h g) [
    | yes same ↦ absurd (used (rw same (lookup-erase_self Text_discrete g s.groups)))
    | no ne ↦
        member-leave_ne s.link h ne
        ∙ b h (λ missing. used (lookup-erase_ne Text_discrete h g s.groups ne ∙ missing))
  ]

  leave_at-none : (s : Membership) → (leave_at env g none s).1 ≡ s
  unfolding leave_at
  leave_at-none s = ground arith

  leave_at-IsBacked :
      (s : Membership) (o : Option ℕ)
      → lookup Text_discrete g s.groups ≡ o
      → IsBacked env s
      → IsBacked env (leave_at env g o s).1
  unfolding leave_at
  leave_at-IsBacked s none l b =
      subst (λ (t : Membership). IsBacked env t) (sym (leave_at-none s)) b
  leave_at-IsBacked s (some n) l b = elim (Bool-cases (decremented n == 0)) [
    | inl last ↦ rw (last, leave_at) (last_use-IsBacked s b)
    | inr more ↦ rw (more, leave_at) (recounted-IsBacked s n _ l b)
  ]

-- The calls that a manager gets.
pub data Use : Type 0 where
  joins leaves : Text → Use

-- The state behind a call, however it ended.
unfoldable pub use_group : Env → Use → Membership → Membership
use_group env (joins g) s = (join env g s).1
use_group env (leaves g) s = (leave env g s).1

unfoldable pub use_groups : Env → List Use → Membership → Membership
use_groups env [] s = s
use_groups env (u ∷ us) s = use_groups env us (use_group env u s)

abbrev pub group_of : Use → Text
group_of (joins g) = g
group_of (leaves g) = g

use_group-IsBacked :
    (env : Env) (u : Use) (s : Membership)
    → c_str (group_of u) ≡ group_of u
    → IsBacked env s
    → IsBacked env (use_group env u s)
unfolding use_group join leave
use_group-IsBacked env (joins g) s plain b = join_at-IsBacked env g plain s _ refl b
use_group-IsBacked env (leaves g) s plain b = leave_at-IsBacked env g plain s _ refl b

uses-IsBacked :
    (env : Env) (us : List Use) (s : Membership)
    → All (λ u. c_str (group_of u) ≡ group_of u) us
    → IsBacked env s
    → IsBacked env (use_groups env us s)
unfolding use_groups
uses-IsBacked env [] s plain b = b
uses-IsBacked env (u ∷ us) s plain b =
    uses-IsBacked env us (use_group env u s) plain.1 (use_group-IsBacked env u s plain.0 b)

-- However a new manager is used and however the daemon answers, exceptions and faults of its calls
-- included, the session is in every group that the manager counts uses of. This asks that the names
-- hold no NUL byte, and that the session is neither opened nor closed in the meantime.
pub use_groups-IsBacked :
    (env : Env) (us : List Use) (l : Link)
    → All (λ u. c_str (group_of u) ≡ group_of u) us
    → IsBacked env (use_groups env us (new_membership l))
use_groups-IsBacked env us l plain =
    uses-IsBacked env us (new_membership l) plain (λ h used. absurd (used refl))
