-- ===== src/Examples/Routes.antt =====
-- Which processes get an event, at a concrete one.
use rsb_spread_cpp.Base.{
  ℕ, true, ◌≤◌, ◌≡◌, refl, List, [], ◌∷◌, All, arith, length, Text, text_ltb, c_str, ok, ℤ_discrete,
  Text_discrete,
}
use rsb_spread_cpp.Examples.Fixtures.{env, naming, events, connector, wire, inactive_link}
use rsb_spread_cpp.Examples.Buses.{dispatching, bus, written}
use rsb_spread_cpp.Examples.Compositions.{granting, idle}
use rsb_spread_cpp.Bus.{Bus, connection, new_bus, handle_outgoing}
use rsb_spread_cpp.Bus
use rsb_spread_cpp.Connection
use rsb_spread_cpp.ConnectorBase
use rsb_spread_cpp.GroupNameCache
use rsb_spread_cpp.InConnector
use rsb_spread_cpp.InConnector.{InConnector}
use rsb_spread_cpp.InConnector.Sharing.{Turn, connects, disconnects, run_turns, turn_at}
use rsb_spread_cpp.Membership
use rsb_spread_cpp.Message
use rsb_spread_cpp.OutConnector.{Connector, handle, cut_wire, populate}
use rsb_spread_cpp.OutConnector
use rsb_spread_cpp.OutConnector.Cutting.{Fits}
use rsb_spread_cpp.EndToEnd.Calls.{made}
use rsb_spread_cpp.EndToEnd.Recipients.{IsTold}
use rsb_spread_cpp.EndToEnd.Routing.{Routes, handle-Routes}

routed-Fits : Fits env events connector wire (115 ∷ []) wire
unfolding populate
routed-Fits = record { headers = λ i. omega arith; small = omega arith }

-- Of two connectors of other scopes than the event's, the one of its super-scope is active in the
-- end.
abbrev two : List (InConnector Text ℕ)
two = idle ∷ record idle { scope = 98 ∷ [] } ∷ []

abbrev two_turns : List Turn
two_turns = (connects, 0) ∷ (connects, 1) ∷ (disconnects, 1) ∷ []

abbrev subscribed : List (InConnector Text ℕ) × Bus ℕ
subscribed =
    run_turns env naming dispatching (λ i. i) two_turns
      (two, (Bus.activate env (new_bus env naming dispatching inactive_link)).1)

handle_returns :
    (handle env events
      (handle_outgoing env naming dispatching written)
      naming
      5
      wire
      (connector, bus)).0
    ≡ ok tt
unfolding handle OutConnector.prepare cut_wire OutConnector.outgoing GroupNameCache.scope_to_groups
    GroupNameCache.scope_to_group Bus.handle_outgoing Bus.send_notification Connection.send
    Message.insert_set Message.add_group text_ltb c_str
handle_returns = refl

scopes-IsTold :
    All (λ c. IsTold env naming c (naming.super_scopes (47 ∷ 97 ∷ []) true)) subscribed.0
unfolding run_turns turn_at InConnector.activate InConnector.deactivate ConnectorBase.activate
    ConnectorBase.deactivate Bus.add_sink Bus.remove_sink Membership.join Membership.leave
    Membership.join_at Membership.leave_at Membership.last_use Connection.join Connection.leave
    Bus.activate new_bus Connection.activate ℤ_discrete Text_discrete c_str
    GroupNameCache.scope_to_group
scopes-IsTold = ((λ e. e, (λ e. e, tt)), ((λ e. e, (λ e. e, tt)), tt))

handle-Routes_example :
    let r =
      handle env events
        (handle_outgoing env naming dispatching written)
        naming
        5
        wire
        (connector, bus) in
    let calls = made (connection bus) (connection r.1.1) in
    (1 ≤ length calls)
    × Routes env naming (47 ∷ 97 ∷ []) subscribed.0 (connection subscribed.1) calls
unfolding GroupNameCache.scope_to_group c_str text_ltb Message.insert_set Bus.activate new_bus
    Connection.activate ℤ_discrete
handle-Routes_example =
    handle-Routes env env events naming dispatching written connector bus 5 wire (115 ∷ []) wire
      dispatching (λ i. i) two_turns two inactive_link tt (omega arith) refl routed-Fits
      handle_returns (ground arith) refl granting (refl, (refl, tt)) (refl, (refl, tt))
      (ground arith) refl scopes-IsTold
