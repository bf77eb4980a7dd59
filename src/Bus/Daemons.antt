-- ===== src/Bus/Daemons.antt =====
-- Whatever happens to a bus, its connection is for the same daemon.
use rsb_spread_cpp.Base.{refl, Option, arith, Text, Text_discrete, lookup}
use rsb_spread_cpp.Spread.{Env}
use rsb_spread_cpp.Protocol.{Fragment}
use rsb_spread_cpp.GroupNameCache.{Naming, scope_to_group}
use rsb_spread_cpp.Connection.{Link, interrupt_receive}
use rsb_spread_cpp.Connection
use rsb_spread_cpp.Membership
use rsb_spread_cpp.Bus.{Dispatching, Bus, connection}
use rsb_spread_cpp.Bus
use rsb_spread_cpp.Bus.Consistency.{
  BusOperation, activates, deactivates, destroys, adds, removes, sends, dispatches, reports,
  SameDaemon, step, join_at-KeepsLink, leave_at-KeepsLink, send_notification-Keeps,
}

activate-SameDaemon : (env : Env) (l : Link) → SameDaemon l (Connection.activate env l).1
unfolding Connection.activate
activate-SameDaemon env l = ground arith

deactivate-SameDaemon :
    {Sinks : Type 0} (env : Env) (b : Bus Sinks)
    → SameDaemon (connection b) (connection (Bus.deactivate env b).1)
unfolding Bus.deactivate Bus.cancel_receiver interrupt_receive Connection.deactivate
deactivate-SameDaemon env b = ground arith

pub step-SameDaemon :
    {Scope Sink Sinks : Type 0} (env : Env) (naming : Naming Scope)
    (dispatching : Dispatching Scope Sink Sinks) (serialize : Fragment → Option Text)
    (o : BusOperation Scope Sink) (b : Bus Sinks)
    → SameDaemon (connection b) (connection (step env naming dispatching serialize o b))
unfolding step Bus.activate Bus.destroy Bus.add_sink Bus.remove_sink Bus.handle_outgoing
    Bus.handle_incoming Bus.handle_error Membership.join Membership.leave
step-SameDaemon env naming dispatching serialize activates b =
    ground (arith, activate-SameDaemon env (connection b))
step-SameDaemon env naming dispatching serialize deactivates b = deactivate-SameDaemon env b
step-SameDaemon env naming dispatching serialize destroys b =
    ground (arith, deactivate-SameDaemon env b)
step-SameDaemon env naming dispatching serialize (adds scope sink) b = ground (
  arith,
  join_at-KeepsLink env (scope_to_group env naming scope)
      (lookup Text_discrete (scope_to_group env naming scope) b.memberships.groups) b.memberships,
)
step-SameDaemon env naming dispatching serialize (removes scope sink) b = ground (
  arith,
  leave_at-KeepsLink env (scope_to_group env naming scope)
      (lookup Text_discrete (scope_to_group env naming scope) b.memberships.groups) b.memberships,
)
step-SameDaemon env naming dispatching serialize (sends o) b =
    ground (arith, send_notification-Keeps env serialize o (connection b))
step-SameDaemon env naming dispatching serialize (dispatches n) b = (refl, refl)
step-SameDaemon env naming dispatching serialize (reports e) b = (refl, refl)
