-- ===== src/Examples/Compositions.antt =====
-- The theorems on components that work together, at concrete ones.
use rsb_spread_cpp.Base.{
  Action, ℕ, ◌≡◌, refl, false, none, List, [], ◌∷◌, ◌++◌, arith, Text, bytes, ok, throw, negsuc,
  comm_error, Exception, ℤ_discrete, Text_discrete, c_str, invalid_argument,
}
use rsb_spread_cpp.Spread.{Env}
use rsb_spread_cpp.ErrorMessages.{spread_error_string}
use rsb_spread_cpp.Examples.Fixtures.{env, naming, events, connector, link, inactive_link}
use rsb_spread_cpp.Examples.Buses.{dispatching, written, bus, in_connector}
use rsb_spread_cpp.OutConnector.{populate}
use rsb_spread_cpp.OutConnector.Cutting.{Fits}
use rsb_spread_cpp.Connection
use rsb_spread_cpp.GroupNameCache.{scope_to_group}
use rsb_spread_cpp.Membership.{Membership, new_membership, leave}
use rsb_spread_cpp.Membership.Daemon.{Use, joins, leaves, use_groups}
use rsb_spread_cpp.Membership.Refining.{
  AreAllowed, AllReturn, Grants, Implements, use_bags, use_groups-Implements,
}
use rsb_spread_cpp.Bus.{new_bus, Bus, handle_outgoing}
use rsb_spread_cpp.OutConnector.{handle}
use rsb_spread_cpp.OutConnector.Publishing.{Handles, handle-Handles}
use rsb_spread_cpp.InConnector
use rsb_spread_cpp.ConnectorBase
use rsb_spread_cpp.Bus
use rsb_spread_cpp.Membership
use rsb_spread_cpp.InConnector.{InConnector}
use rsb_spread_cpp.InConnector.Connecting.{
  connect, disconnect, Reconnects, disconnect-connect, IsLeftOver, disconnect_failed,
}
use rsb_spread_cpp.InConnector.Shares.{total}
use rsb_spread_cpp.InConnector.Sharing.{
  Turn, connects, disconnects, run_turns, run_turns-Implements,
}
use rsb_spread_cpp.Registration.{Entry, Registries, Transport, plugin_init, plugin_shutdown}
use rsb_spread_cpp.Registration.Repeating.{Registers, plugin_init-Registers}

abbrev short : Text
short = 1 ∷ 2 ∷ 3 ∷ []

short-Fits : Fits env events connector short (115 ∷ []) short
unfolding populate
short-Fits = record { headers = λ i. omega arith; small = omega arith }

handle-Handles_example :
    Handles env events naming dispatching written connector bus short (115 ∷ []) short short-Fits (
      handle env events
        (handle_outgoing env naming dispatching written)
        naming
        5
        short
        (connector, bus))
handle-Handles_example =
    handle-Handles env events naming dispatching written connector bus 5 short (115 ∷ []) short tt
      (ground arith) refl short-Fits

pub granting : Grants env
granting = record { joined = λ h m g. refl; left = λ h m g. refl }

-- Two uses of a group and one of another.
abbrev uses_of_groups : List Use
uses_of_groups =
    joins (97 ∷ []) ∷ joins (98 ∷ []) ∷ joins (97 ∷ []) ∷ leaves (98 ∷ []) ∷ leaves (97 ∷ []) ∷ []

uses_allowed : AreAllowed uses_of_groups (λ g. 0)
unfolding Text_discrete c_str
uses_allowed = ground arith

use_groups-Implements_example :
    let s = new_membership (Connection.activate env inactive_link).1 in
    AllReturn env uses_of_groups s
    × Implements env (use_groups env uses_of_groups s) (use_bags uses_of_groups (λ g. 0))
unfolding Connection.activate ℤ_discrete
use_groups-Implements_example =
    use_groups-Implements env granting inactive_link uses_of_groups refl uses_allowed

abbrev pub idle : InConnector Text ℕ
idle = record in_connector { active = false }

empty_bag : Implements env bus.memberships (λ g. 0)
empty_bag = record { counts = λ g. refl; sound = tt; active = refl; inside = λ g. refl }

disconnect-connect_example :
    Reconnects env naming dispatching 1 idle bus
      (λ g. 0)
      (connect env naming dispatching 1 (idle, bus))
      (disconnect env naming dispatching 1 (connect env naming dispatching 1 (idle, bus)).1)
unfolding scope_to_group c_str
disconnect-connect_example =
    disconnect-connect env naming dispatching 1 granting idle bus (λ g. 0) refl empty_bag refl
      (ground arith)

-- A daemon that has lost the session.
abbrev lost_env : Env
lost_env = record env { sp_leave = λ h m g. negsuc 7 }

-- The only sink of its scope is on the bus.
abbrev shared_bus : Bus ℕ
shared_bus = record bus { memberships = record { link = link; groups = ((47 ∷ []), 1) ∷ [] } }

abbrev leaving_error : Exception
leaving_error = comm_error (
    bytes "Error leaving Spread group '"
    ++ 47 ∷ []
    ++ bytes "': "
    ++ spread_error_string lost_env (negsuc 7))

leaving_throws :
    (disconnect lost_env naming dispatching 1 (in_connector, shared_bus)).0 ≡ throw leaving_error
unfolding InConnector.deactivate ConnectorBase.deactivate Bus.remove_sink leave Membership.leave_at
    Membership.last_use Connection.leave scope_to_group c_str ℤ_discrete Text_discrete
leaving_throws = refl

disconnect_failed_example :
    IsLeftOver lost_env naming dispatching 1 in_connector shared_bus
      (disconnect lost_env naming dispatching 1 (in_connector, shared_bus)).1
disconnect_failed_example =
    disconnect_failed lost_env naming dispatching 1 in_connector shared_bus leaving_error refl
      (ground arith) leaving_throws

-- Registries that refuse a name that they have.
abbrev registries : Registries (List Entry) (List Entry)
registries = record { register_in = add_entry; register_out = add_entry }
  where
    add_entry : Entry → Action (List Entry) (Unit {0})
    add_entry e [] = (ok tt, e ∷ [])
    add_entry e es = (throw (invalid_argument e.name), es)

abbrev unregistered : Transport (List Entry) (List Entry)
unregistered = record { factory = none; created = 0; in_factory = []; out_factory = [] }

plugin_init-Registers_example :
    let t = (plugin_init registries unregistered).1 in
    let u = (plugin_shutdown registries t).1 in
    Registers registries unregistered (plugin_init registries unregistered)
    × (plugin_init registries t ≡ (ok tt, t))
    × (u.in_factory ≡ t.in_factory)
    × (u.out_factory ≡ t.out_factory)
    × (u.created ≡ 1)
    × Registers registries u (plugin_init registries u)
plugin_init-Registers_example = plugin_init-Registers registries unregistered refl

-- Two connectors of one scope and one of another; one is activated twice.
abbrev three : List (InConnector Text ℕ)
three = idle ∷ record idle { scope = 97 ∷ [] } ∷ idle ∷ []

abbrev turns : List Turn
turns =
    (connects, 0)
    ∷ (connects, 1)
    ∷ (connects, 2)
    ∷ (connects, 1)
    ∷ (disconnects, 0)
    ∷ (disconnects, 1)
    ∷ []

run_turns-Implements_example :
    let s =
      run_turns env naming dispatching
        (λ i. i)
        turns
        (three, (Bus.activate env (new_bus env naming dispatching inactive_link)).1) in
    Implements env s.1.memberships (total env naming s.0)
unfolding scope_to_group c_str Bus.activate new_bus Connection.activate ℤ_discrete
run_turns-Implements_example =
    run_turns-Implements env naming dispatching (λ i. i) granting turns three inactive_link
      (refl, (refl, (refl, tt))) (refl, (refl, (refl, tt))) (ground arith) refl
