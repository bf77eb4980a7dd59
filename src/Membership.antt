-- ===== src/Membership.antt =====
-- src/rsb/transport/spread/MembershipManager.{h,cpp}: counts how often each group was joined, and
-- joins or leaves it at the daemon with the first and the last use. The connection is shared with
-- others.
pub mod Counting
pub mod Daemon
pub mod Refining
use rsb_spread_cpp.Base.{
  ◌>>=◌, ◌>>◌, ℕ, ◌+◌, ◌-◌, ◌%◌, ◌^◌, false, Option, none, some, List, [], ◌==◌, if◌then◌else◌,
  Text, Text_discrete, lookup, insert, erase, end_dereferenced, Action, ◌>>◌, crash, modify, check,
  zoom,
}
use rsb_spread_cpp.Spread.{Env}
use rsb_spread_cpp.Connection
use rsb_spread_cpp.Connection.{Link}

-- An `unsigned int` has 32 bits.
abbrev pub uint_mod : ℕ
uint_mod = 2 ^ 32

abbrev pub GroupMap : Type 0
GroupMap = List (Text × ℕ)

pub record Membership : Type 0 where
  pub link : Link
  pub groups : GroupMap

abbrev pub new_membership : Link → Membership
new_membership l = record { link = l; groups = [] }

abbrev put_link : Membership → Link → Membership
put_link s l = record s { link = l }

abbrev set_count : Text → ℕ → Action Membership (Unit {0})
set_count g n = modify (λ s. record s { groups = insert Text_discrete g n s.groups })

-- The count at the iterator, if it is not the end.
unfoldable pub join_at : Env → Text → Option ℕ → Action Membership (Unit {0})
join_at env g none = zoom (λ s. s.link) put_link (Connection.join env g) >> set_count g 1
join_at env g (some n) = set_count g ((n + 1) % uint_mod)

unfoldable pub join : Env → Text → Action Membership (Unit {0})
unfolding join_at
join env g s = join_at env g (lookup Text_discrete g s.groups) s

-- The count after `--`.
abbrev pub decremented : ℕ → ℕ
decremented n = (n + uint_mod - 1) % uint_mod

unfoldable pub last_use : Env → Text → Action Membership (Unit {0})
last_use env g = do
  modify (λ s. record s { groups = erase Text_discrete g s.groups })
  zoom (λ s. s.link) put_link (Connection.leave env g)

unfoldable pub leave_at : Env → Text → Option ℕ → Action Membership (Unit {0})
unfolding last_use
leave_at env g none s = (check env.ndebug false >> crash end_dereferenced) s
leave_at env g (some n) s =
    if decremented n == 0 then last_use env g s else set_count g (decremented n) s

unfoldable pub leave : Env → Text → Action Membership (Unit {0})
unfolding leave_at
leave env g s = leave_at env g (lookup Text_discrete g s.groups) s
