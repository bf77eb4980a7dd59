-- ===== src/Bus/Reactivation.antt =====
-- What becomes of the groups when a bus is deactivated and activated again.
use rsb_spread_cpp.Base.{◌≡◌, true, false, arith, Text, Result, ok, throw, fault, IsCommError}
use rsb_spread_cpp.Spread.{Env}
use rsb_spread_cpp.Connection.Inactive.{activate-Activates}
use rsb_spread_cpp.Membership.Daemon.{member}
use rsb_spread_cpp.Bus.{Bus, connection, activate, deactivate}
use rsb_spread_cpp.Bus.Lifecycle.{IsConsistent, deactivate-Deactivates}

-- The counts of the groups are as they were, but the session is in none of them.
abbrev pub Forgets : {Sinks : Type 0} → Env → Bus Sinks → Result (Unit {0}) × Bus Sinks → Type 0
Forgets env b (ok _, c) =
    (c.active ≡ true)
    × (c.memberships.groups ≡ b.memberships.groups)
    × ((g : Text) → member env (connection c).history g ≡ false)
Forgets env b (throw e, c) = IsCommError e × (c.active ≡ false)
Forgets env b (fault x, c) = ⊥

activate-Forgets :
    {Sinks : Type 0} (env : Env) (b c : Bus Sinks)
    → c.active ≡ false
    → (connection c).connected ≡ false
    → c.memberships.groups ≡ b.memberships.groups
    → Forgets env b (activate env c)
unfolding activate
activate-Forgets env b c off inactive same = ground (arith, activate-Activates env (connection c))

-- An active and consistent bus that is deactivated and activated again keeps its counts of the
-- groups' uses, while its new session is in no group: none is joined again. Activating either
-- returns so or throws `CommException`.
pub activate-deactivate :
    {Sinks : Type 0} (env : Env) (b : Bus Sinks)
    → IsConsistent b
    → b.active ≡ true
    → Forgets env b (activate env (deactivate env b).1)
activate-deactivate env b v on =
    activate-Forgets env b (deactivate env b).1 (ground (arith, deactivate-Deactivates env b v))
      (ground (arith, deactivate-Deactivates env b v))
      (ground (arith, deactivate-Deactivates env b v))
