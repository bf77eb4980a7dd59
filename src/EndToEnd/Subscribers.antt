-- ===== src/EndToEnd/Subscribers.antt =====
-- The events of several processes reach the handlers of the connectors of another, whatever
-- exceptions these handlers and the converters throw.
use rsb_spread_cpp.Base.{
  ℕ, ◌≡◌, ◌≢◌, refl, ap, ◌∙◌, true, Option, some, List, [], ◌∷◌, map, arith, length, All, Text, ok,
}
use rsb_spread_cpp.Spread.{Call, Env}
use rsb_spread_cpp.Protocol.{Fragment}
use rsb_spread_cpp.Notifications.{Transported}
use rsb_spread_cpp.GroupNameCache.{Naming}
use rsb_spread_cpp.Receiver.{Handler, Receiver}
use rsb_spread_cpp.Bus.{Dispatching}
use rsb_spread_cpp.OutConnector.{Events}
use rsb_spread_cpp.InConnector.{World, Consuming, InConnector, exit}
use rsb_spread_cpp.EndToEnd.Rounds.{rounds}
use rsb_spread_cpp.EndToEnd.Traffic.{tell}
use rsb_spread_cpp.EndToEnd.Merging.{Merges}
use rsb_spread_cpp.EndToEnd.Calls.{Handed}
use rsb_spread_cpp.EndToEnd.Network.{Sender, calls_of, told_by, IsReady, AllDiffer}
use rsb_spread_cpp.EndToEnd.Interleaving.{rounds-publish}
use rsb_spread_cpp.InConnector.Returning.{
  IsCalm, notify_each, each_returns, hand_over_each, each-hand_over_each,
}

module _ {Scope Data Event Taker W : Type 0} (consuming : Consuming Scope Data Event Taker W) where
  -- What the world outside becomes when each event is handed to the handlers of the connectors that
  -- are chosen for it.
  abbrev pub hand_over_all :
      (Transported Scope → List (InConnector Scope Taker)) → List (Transported Scope) → W → W
  hand_over_all chosen [] w = w
  hand_over_all chosen (n ∷ ns) w =
      hand_over_all chosen ns (hand_over_each consuming (chosen n) n w)

  module _ (calm : IsCalm consuming) where
    tell_returns :
        (handler : Handler Scope (World W))
        (chosen : Transported Scope → List (InConnector Scope Taker))
        (ns : List (Transported Scope)) (w : World W)
        → ((n : Transported Scope) (v : World W)
            → handler.handle_incoming n v ≡ notify_each consuming (chosen n) n v)
        → ((n : Transported Scope) → All (λ c. c.error_strategy ≢ exit) (chosen n))
        → (tell handler ns w).0 ≡ ok tt
    tell_returns handler chosen [] w dispatches goes_on = refl
    tell_returns handler chosen (n ∷ ns) w dispatches goes_on =
        let told : (handler.handle_incoming n w).0 ≡ ok tt =
          ap (λ r. r.0) (dispatches n w) ∙ each_returns consuming calm (chosen n) n w (goes_on n) in
        ground (
          arith,
          told,
          tell_returns handler chosen ns (handler.handle_incoming n w).1 dispatches goes_on,
        )

    tell-hand_over_all :
        (handler : Handler Scope (World W))
        (chosen : Transported Scope → List (InConnector Scope Taker))
        (ns : List (Transported Scope)) (w : World W)
        → ((n : Transported Scope) (v : World W)
            → handler.handle_incoming n v ≡ notify_each consuming (chosen n) n v)
        → ((n : Transported Scope) → All (λ c. c.error_strategy ≢ exit) (chosen n))
        → (tell handler ns w).1.outside ≡ hand_over_all chosen ns w.outside
    tell-hand_over_all handler chosen [] w dispatches goes_on = refl
    tell-hand_over_all handler chosen (n ∷ ns) w dispatches goes_on =
        let told : (handler.handle_incoming n w).0 ≡ ok tt =
          ap (λ r. r.0) (dispatches n w) ∙ each_returns consuming calm (chosen n) n w (goes_on n) in
        let first : (handler.handle_incoming n w).1.outside
            ≡ hand_over_each consuming (chosen n) n w.outside =
          ap (λ r. r.1.outside) (dispatches n w)
          ∙ each-hand_over_each consuming calm (chosen n) n w (goes_on n) in
        ground (
          arith,
          told,
          first,
          tell-hand_over_all handler chosen ns (handler.handle_incoming n w).1 dispatches goes_on,
        )

-- What exceptions of converters and handlers do to the delivery of events. Several processes
-- publish events with their connectors and return, and the daemon hands over what all of them
-- have sent to a receiver, in any order that keeps that of each sender; the receiver's handler
-- passes each notification on to the connectors that are chosen for it, one after the other, none
-- of which is to end the process on errors; and the converters and the handlers return or throw
-- what `catch (const std::exception&)` takes. Then as many rounds, at any times, return, and the
-- task is cancelled only if it was. For each event of each sender, with its scope and with the
-- schema and the payload of the sender's converter, exactly once and for the events of each
-- sender in its order, every connector that is chosen has called its handlers in their order up
-- to the first that threw; they were given the event that the converter made, or, where it threw,
-- what it had made until then of an empty event; and nothing else was done to the world outside.
-- The rest that this asks is what the rounds of any receiver ask for: right caches of group
-- names, events that can be serialized, meta data that leave more than the minimal space in every
-- fragment without a size that wraps around, fragments with their event's identification, no two
-- events and no entry of the receiver's pool under the same, headers that hold the schema and a
-- text that is read back as the scope, no message for its private group alone, fragments that are
-- read back as they were written, and group names that are not too long and hold no NUL byte.
pub rounds-notify :
    {Scope Event Sink Sinks Data Taken Taker W : Type 0} (env : Env) (events : Events Scope Event)
    (naming : Naming Scope) (dispatching : Dispatching Scope Sink Sinks)
    (serialize : Fragment → Text) (parse : Text → Option Fragment)
    (consuming : Consuming Scope Data Taken Taker W) (handler : Handler Scope (World W))
    (chosen : Transported Scope → List (InConnector Scope Taker))
    (senders : List (Sender Scope Event Sinks)) (handed : List Call) (ts : List ℕ)
    (s : Receiver (World W))
    → (round_trip : (f : Fragment) → parse (serialize f) ≡ some f)
    → All
        (IsReady env events naming dispatching serialize parse s.link.private_group s.pool)
        senders
    → AllDiffer env events naming dispatching serialize parse senders
    → Merges (map (calls_of env events naming dispatching serialize) senders) handed
    → length ts ≡ length handed
    → Handed env naming parse serialize handler handed s.link
    → s.link.connected ≡ true
    → ((n : Transported Scope) (w : World W)
        → handler.handle_incoming n w ≡ notify_each consuming (chosen n) n w)
    → ((n : Transported Scope) → All (λ c. c.error_strategy ≢ exit) (chosen n))
    → IsCalm consuming
    → let r = rounds env naming parse serialize handler ts s in
      (ns : List (Transported Scope)) × Merges
        (map (told_by env events naming dispatching serialize parse) senders)
        ns
      × (r.0 ≡ ok tt)
      × (r.1.handled.outside ≡ hand_over_all consuming chosen ns s.handled.outside)
      × (r.1.cancelled ≡ s.cancelled)
rounds-notify env events naming dispatching serialize parse consuming handler chosen senders handed
      ts s round_trip ready differ merged count arriving on dispatches goes_on calm =
    let (ns, told, (returned, same, kept, polls)) =
      rounds-publish env events naming dispatching serialize parse handler senders handed ts s
        round_trip ready differ merged count arriving on
        (λ ns m. tell_returns consuming calm handler chosen ns s.handled dispatches goes_on) in
    (
      ns,
      told,
      returned,
      ap (λ w. w.outside) same
          ∙ tell-hand_over_all consuming calm handler chosen ns s.handled dispatches goes_on,
      kept,
    )
