-- ===== src/Examples/Buses.antt =====
-- The theorems on the bus, the receiver, the connectors and the factory, at concrete ones.
use rsb_spread_cpp.Base.{
  ℕ, ◌+◌, ◌≡◌, refl, true, false, Option, some, List, [], ◌∷◌, arith, pos, Text, c_str, comm_error,
  other_exception, ok, throw,
}
use rsb_spread_cpp.Spread.{Call}
use rsb_spread_cpp.Examples.Fixtures.{env, broken_env, naming, link, part, pool, notification}
use rsb_spread_cpp.Examples.Codec.{serialize, parse}
use rsb_spread_cpp.Protocol.{Fragment}
use rsb_spread_cpp.Message.{fifo}
use rsb_spread_cpp.Notifications.{Transported, Outgoing}
use rsb_spread_cpp.Connection.{Link, interrupt_receive, log_call}
use rsb_spread_cpp.Connection
use rsb_spread_cpp.Membership.{new_membership}
use rsb_spread_cpp.Pool.{running}
use rsb_spread_cpp.Receiver.{Handler, Receiver, execute}
use rsb_spread_cpp.Receiver.Rounds.{execute_interrupted, execute_broken}
use rsb_spread_cpp.Bus.{Dispatching, Bus, new_bus, deactivate}
use rsb_spread_cpp.Bus
use rsb_spread_cpp.Bus.Lifecycle.{IsConsistent, Deactivates, deactivate-Deactivates}
use rsb_spread_cpp.Bus.Consistency.{
  BusOperation, activates, adds, sends, dispatches, run, run-new_bus-IsConsistent,
}
use rsb_spread_cpp.Bus.Consistency
use rsb_spread_cpp.Bus.Reactivation.{Forgets, activate-deactivate}
use rsb_spread_cpp.InConnector.{Consuming, InConnector, World, log, dispatch, handle_notification}
use rsb_spread_cpp.InConnector.Dispatching.{handle_notification_undecoded}

-- Sinks that count what they get.
abbrev pub dispatching : Dispatching Text ℕ ℕ
dispatching = record {
  no_sinks = 0;
  add_sink = λ scope sink s. s;
  remove_sink = λ scope sink s. s;
  map_sinks = λ scope n s. (ok tt, s + 1);
  map_all = λ e s. (ok tt, s);
}

abbrev pub incoming_example : Transported Text
incoming_example = record {
  scope = 47 ∷ 97 ∷ [];
  wire_schema = 115 ∷ [];
  serialized_payload = 1 ∷ 2 ∷ [];
  notification = notification;
}

abbrev pub outgoing_example : Outgoing Text
outgoing_example = record {
  base = incoming_example;
  qos = fifo;
  groups = (97 ∷ []) ∷ (98 ∷ []) ∷ [];
  fragments = part 0 (1 ∷ []) ∷ part 1 (2 ∷ []) ∷ [];
}

abbrev pub written : Fragment → Option Text
written f = some (serialize f)

abbrev pub bus : Bus ℕ
bus = record {
  active = true;
  memberships = new_membership link;
  receiver = some running;
  sinks = 0;
}

deactivate-Deactivates_example : Deactivates env bus (deactivate env bus)
deactivate-Deactivates_example =
    deactivate-Deactivates env bus (record { agrees = refl; receives = λ on. ground arith })

-- A sink uses a group.
abbrev used_bus : Bus ℕ
used_bus = record bus { memberships = record { link = link; groups = ((97 ∷ []), 1) ∷ [] } }

activate-deactivate_example : Forgets env used_bus (Bus.activate env (deactivate env used_bus).1)
activate-deactivate_example =
    activate-deactivate env used_bus (record { agrees = refl; receives = λ on. ground arith }) refl

abbrev operations : List (BusOperation Text ℕ)
operations =
    activates
    ∷ adds (47 ∷ []) 1
    ∷ sends outgoing_example
    ∷ dispatches incoming_example
    ∷ Consistency.deactivates
    ∷ []

run-new_bus-IsConsistent_example : IsConsistent (
    run env naming dispatching written operations (
      new_bus env naming dispatching
        (record { connection = Connection.new_connection env (104 ∷ []) 4803; history = [] })))
run-new_bus-IsConsistent_example =
    run-new_bus-IsConsistent env naming dispatching written operations (104 ∷ []) 4803

abbrev pub handler : Handler Text ℕ
handler = record {
  handle_incoming = λ n h. (ok tt, h + 1);
  handle_error = λ e h. (ok tt, h);
  is_comm_exception = λ e. elim e [ comm_error t ↦ true | _ ↦ false ];
}

abbrev pub receiver : Link → Receiver ℕ
receiver l = record { link = l; pool = pool; cancelled = false; handled = 0 }

abbrev woken : Receiver ℕ
woken = receiver (interrupt_receive env link).1

execute_interrupted_example :
    execute env naming parse handler 5 woken
    ≡ (ok tt, record woken { link = log_call (Call.receive woken.link.mailbox) woken.link })
unfolding interrupt_receive c_str
execute_interrupted_example =
    execute_interrupted env naming parse handler 5 link woken refl
      (record {
        all_read = refl;
        same_payload = refl;
        same_groups = refl;
        same_count = refl;
        is_regular = refl;
      })
      refl refl refl refl

execute_broken_example : execute broken_env naming parse handler 5 (receiver link) ≡ (
  ok tt,
  record {
    link = log_call (Call.receive (pos 7)) link;
    pool = pool;
    cancelled = true;
    handled = 0;
  },
)
execute_broken_example =
    execute_broken broken_env naming parse handler 5 (receiver link) refl refl refl refl

-- Events that cannot be converted; a handler counts its events.
abbrev consuming : Consuming Text Text Text ℕ ℕ
consuming = record {
  new_event = [];
  deserialize = λ n. throw (other_exception []);
  fill_event = λ n d e. (ok tt, d);
  set_receive_time = λ e. e;
  handle = λ r e w. (ok tt, w + 1);
}

abbrev pub in_connector : InConnector Text ℕ
in_connector = record {
  active = true;
  scope = 47 ∷ [];
  error_strategy = log;
  handlers = 1 ∷ 2 ∷ [];
}

abbrev world : World ℕ
world = record { outside = 0; log_lines = []; error_lines = [] }

handle_notification_undecoded_example :
    (handle_notification consuming in_connector incoming_example world).1.outside
    ≡ (dispatch consuming (1 ∷ 2 ∷ []) [] 0).1
handle_notification_undecoded_example =
    handle_notification_undecoded consuming in_connector incoming_example world (other_exception [])
      refl refl (ground arith)
