-- ===== src/Membership/Refining.antt =====
-- What the membership manager promises: a bag of groups, each of which the session is in exactly
-- while it is in the bag.
use rsb_spread_cpp.Base.{
  ℕ, ◌+◌, ◌-◌, ◌≤◌, ◌<◌, ◌≡◌, refl, ap, ◌∙◌, ite, true, List, [], ◌∷◌, arith, ltb, pos, ℤ, Text,
  Text_discrete, c_str, Result, ok, throw, fault, Action,
}
use rsb_spread_cpp.Spread.{Call, History, Env}
use rsb_spread_cpp.Connection
use rsb_spread_cpp.Connection.{Link, log_call}
use rsb_spread_cpp.Membership.{Membership, uint_mod, join, leave, new_membership}
use rsb_spread_cpp.Membership.Counting.{uses, IsCounted, Joins, Leaves, join-Joins, leave-Leaves}
use rsb_spread_cpp.Membership.Daemon.{member, Use, joins, leaves, use_group, use_groups}

-- How often each group is used.
abbrev pub Bag : Type 0
Bag = Text → ℕ

abbrev pub use_bag : Use → Bag → Bag
use_bag (joins g) b h = ite (Text_discrete h g) (b h + 1) (b h)
use_bag (leaves g) b h = ite (Text_discrete h g) (b h - 1) (b h)

pub use_bags : List Use → Bag → Bag
use_bags [] b = b
use_bags (u ∷ us) b = use_bags us (use_bag u b)

-- Who leaves a group has joined it, and no group is used too often. A group's name holds no NUL
-- byte.
abbrev pub IsAllowed : Use → Bag → Type 0
IsAllowed (joins g) b = (b g + 1 < uint_mod) × (c_str g ≡ g)
IsAllowed (leaves g) b = (1 ≤ b g) × (c_str g ≡ g)

abbrev pub AreAllowed : List Use → Bag → Type 0
AreAllowed [] b = Unit {0}
AreAllowed (u ∷ us) b = IsAllowed u b × AreAllowed us (use_bag u b)

-- A daemon that always answers that it has joined or left.
pub record Grants (env : Env) : Type 0 where
  pub joined : (h : History) (m : ℤ) (g : Text) → env.sp_join h m g ≡ pos 0
  pub left : (h : History) (m : ℤ) (g : Text) → env.sp_leave h m g ≡ pos 0

-- The manager with its session stands for the bag.
pub record Implements (env : Env) (s : Membership) (b : Bag) : Type 0 where
  pub counts : (g : Text) → uses g s ≡ b g
  pub sound : IsCounted s.groups
  pub active : s.link.connected ≡ true
  pub inside : (g : Text) → member env s.link.history g ≡ ltb 0 (b g)

-- The call of the manager.
abbrev pub call : Env → Use → Action Membership (Unit {0})
call env (joins g) = join env g
call env (leaves g) = leave env g

abbrev pub AllReturn : Env → List Use → Membership → Type 0
AllReturn env [] s = Unit {0}
AllReturn env (u ∷ us) s = ((call env u s).0 ≡ ok tt) × AllReturn env us (use_group env u s)

module _ (env : Env) (grants : Grants env) (g : Text) (plain : c_str g ≡ g) where
  join_granted :
      (l : Link)
      → l.connected ≡ true
      → Connection.join env g l ≡ (ok tt, log_call (Call.join l.mailbox g) l)
  unfolding Connection.join
  join_granted l on = ground (arith, grants.joined l.history l.mailbox g)

  leave_granted :
      (l : Link)
      → l.connected ≡ true
      → Connection.leave env g l ≡ (ok tt, log_call (Call.leave l.mailbox g) l)
  unfolding Connection.leave
  leave_granted l on = ground (arith, grants.left l.history l.mailbox g)

  joined-Implements :
      (s : Membership) (b : Bag) (r : Result (Unit {0}) × Membership)
      → Implements env s b
      → Joins env g s r
      → (r.0 ≡ ok tt) × Implements env r.1 (use_bag (joins g) b)
  joined-Implements s b (ok _, t) v h = (
    refl,
    record {
      counts = λ k. elim (Text_discrete k g) [
        | yes e ↦ ground (arith, h.0.0, v.counts g)
        | no ne ↦ ground (arith, h.0.1 k ne, v.counts k)
      ];
      sound = h.1;
      active = ground (arith, v.active, join_granted s.link v.active);
      inside = λ k. elim (Text_discrete k g) [
        | yes e ↦ ground (
          arith,
          v.inside g,
          v.counts g,
          join_granted s.link v.active,
          grants.joined s.link.history s.link.mailbox g,
        )
        | no ne ↦ ground (arith, v.inside k, join_granted s.link v.active)
      ];
    },
  )
  joined-Implements s b (throw x, t) v h = ground (arith, join_granted s.link v.active)
  joined-Implements s b (fault x, t) v h = absurd h

  left-Implements :
      (s : Membership) (b : Bag) (r : Result (Unit {0}) × Membership)
      → 1 ≤ b g
      → Implements env s b
      → Leaves env g s r
      → (r.0 ≡ ok tt) × Implements env r.1 (use_bag (leaves g) b)
  left-Implements s b (ok _, t) used v h = (
    refl,
    record {
      counts = λ k. elim (Text_discrete k g) [
        | yes e ↦ ground (arith, h.0.0, v.counts g)
        | no ne ↦ ground (arith, h.0.1 k ne, v.counts k)
      ];
      sound = h.1;
      active = ground (arith, v.active, leave_granted s.link v.active);
      inside = λ k. elim (Text_discrete k g) [
        | yes e ↦ ground (
          arith,
          v.inside g,
          v.counts g,
          leave_granted s.link v.active,
          grants.left s.link.history s.link.mailbox g,
        )
        | no ne ↦ ground (arith, v.inside k, leave_granted s.link v.active)
      ];
    },
  )
  left-Implements s b (throw x, t) used v h = ground (arith, leave_granted s.link v.active)
  left-Implements s b (fault x, t) used v h = ground (arith, v.counts g)

pub call-Implements :
    (env : Env) (grants : Grants env) (u : Use) (s : Membership) (b : Bag)
    → IsAllowed u b
    → Implements env s b
    → ((call env u s).0 ≡ ok tt) × Implements env (use_group env u s) (use_bag u b)
unfolding use_group
call-Implements env grants (joins g) s b a v =
    joined-Implements env grants g a.1 s b (join env g s) v
      (join-Joins env g s v.sound (omega (arith, a.0, v.counts g)))
call-Implements env grants (leaves g) s b a v =
    left-Implements env grants g a.1 s b (leave env g s) a.0 v (leave-Leaves env g s v.sound)

calls-Implement :
    (env : Env) (grants : Grants env) (us : List Use) (s : Membership) (b : Bag)
    → AreAllowed us b
    → Implements env s b
    → AllReturn env us s × Implements env (use_groups env us s) (use_bags us b)
unfolding use_groups use_bags
calls-Implement env grants [] s b a v = (tt, v)
calls-Implement env grants (u ∷ us) s b a v =
    let (r, w) = call-Implements env grants u s b a.0 v in
    let (rs, ws) = calls-Implement env grants us (use_group env u s) (use_bag u b) a.1 w in
    ((r, rs), ws)

pub activated-Implements :
    (env : Env) (l : Link)
    → (Connection.activate env l).0 ≡ ok tt
    → Implements env (new_membership (Connection.activate env l).1) (λ g. 0)
unfolding Connection.activate
activated-Implements env l h = record {
  counts = λ g. refl;
  sound = tt;
  active = ground arith;
  inside = λ g. ground arith;
}

pub Implements-same :
    (env : Env) (s : Membership) (a b : Bag)
    → ((h : Text) → a h ≡ b h)
    → Implements env s a
    → Implements env s b
Implements-same env s a b same v = record {
  counts = λ h. v.counts h ∙ same h;
  sound = v.sound;
  active = v.active;
  inside = λ h. v.inside h ∙ ap (ltb 0) (same h);
}

-- Over a connection that has just been activated, and a daemon that joins and leaves as it is
-- asked, the manager implements a bag of groups that is empty at first: in any sequence of calls
-- in which who leaves a group has joined it, no group is used 2^32 times and no name holds a NUL
-- byte, every call returns; the counts are then those of the bag, and the session is in exactly
-- the groups of the bag.
pub use_groups-Implements :
    (env : Env) (grants : Grants env) (l : Link) (us : List Use)
    → (Connection.activate env l).0 ≡ ok tt
    → AreAllowed us (λ g. 0)
    → AllReturn env us (new_membership (Connection.activate env l).1)
      × Implements env
          (use_groups env us (new_membership (Connection.activate env l).1))
          (use_bags us (λ g. 0))
use_groups-Implements env grants l us on a =
    calls-Implement env grants us _ (λ g. 0) a (activated-Implements env l on)
