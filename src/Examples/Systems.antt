-- ===== src/Examples/Systems.antt =====
-- The theorems on the threads of a process, at a bus of the examples.
use rsb_spread_cpp.Base.{
  ◌++◌, bytes, pos, ℕ, Text_discrete, c_str, ℤ_discrete, ◌≡◌, refl, Bool, true, false, Option, some,
  [], ◌∷◌, arith, Text, ok, comm_error, Exception,
}
use rsb_spread_cpp.Spread.{Env, Call, History, multicast}
use rsb_spread_cpp.Examples.Fixtures.{env, naming, idle_pool, notification}
use rsb_spread_cpp.Examples.Codec.{parse}
use rsb_spread_cpp.Examples.Buses.{dispatching, incoming_example, written}
use rsb_spread_cpp.Connection.{new_connection}
use rsb_spread_cpp.Connection
use rsb_spread_cpp.Message.{regular, Message, new_message}
use rsb_spread_cpp.Deserializing.{handle_message}
use rsb_spread_cpp.Protocol.{Fragment}
use rsb_spread_cpp.Pool.{running}
use rsb_spread_cpp.Notifications.{Transported}
use rsb_spread_cpp.Bus.{Bus, new_bus}
use rsb_spread_cpp.Bus
use rsb_spread_cpp.System
use rsb_spread_cpp.System.{
  next_round, unlocking, Stage, closing_down, alive, holding, handling, receiving, Position,
  lock_bus, unlock, System, Reach, here, later, releases, closes, moves, started, move, release,
  close_step, is_done, cancelling,
}
use rsb_spread_cpp.System.Soundness.{is_closed}
use rsb_spread_cpp.System.Rounds.{receiver_of, settle, settle_broken}
use rsb_spread_cpp.Examples.Fixtures.{broken_env}
use rsb_spread_cpp.System.{ready, done}
use rsb_spread_cpp.Connection.{log_call}
use rsb_spread_cpp.System.Safety.{IsGuarded, Reach-IsGuarded}
use rsb_spread_cpp.System.Closing.{Ends, Reach-Ends}
use rsb_spread_cpp.System.Destruction.{closing_down_hangs}

abbrev is_comm : Exception → Bool
is_comm (comm_error t) = true
is_comm _ = false

-- `SP_receive` waits unless the latest call has sent something.
abbrev available : History → Bool
available (multicast m q g d ∷ h) = true
available (Call.multigroup_multicast m q gs d ∷ h) = true
available _ = false

abbrev fresh_bus : Bus ℕ
fresh_bus =
    new_bus env naming dispatching
      (record { connection = new_connection env (104 ∷ []) 4803; history = [] })

abbrev Run : System Text ℕ → System Text ℕ → Type 0
Run = Reach env naming parse written dispatching is_comm available

abbrev moved : System Text ℕ → System Text ℕ
moved s = move env naming parse written dispatching is_comm 0 s.position s

abbrev starting : System Text ℕ
starting = started (Bus.activate env fresh_bus).1 idle_pool

-- The receiver waits for a message when the owner releases the bus.
abbrev waking_up : System Text ℕ
waking_up = close_step env cancelling (release (moved starting))

waking_up-Run : Run starting waking_up
unfolding new_bus new_connection Bus.activate Connection.activate move release close_step ℤ_discrete
waking_up-Run =
    later (later (later here (moves 0 refl refl)) (releases (ground arith) refl refl))
      (closes refl refl refl)

fresh_bus_starts : (Bus.activate env fresh_bus).0 ≡ ok tt
unfolding new_bus new_connection Bus.activate Connection.activate ℤ_discrete
fresh_bus_starts = refl

Reach-IsGuarded_example : IsGuarded waking_up
Reach-IsGuarded_example =
    Reach-IsGuarded env naming parse written dispatching is_comm available fresh_bus idle_pool
      waking_up fresh_bus_starts waking_up-Run

Reach-Ends_example : Ends env naming parse written dispatching is_comm available 9 waking_up
unfolding new_bus new_connection Bus.activate Connection.activate move release close_step
    Connection.interrupt_receive ℤ_discrete
Reach-Ends_example =
    Reach-Ends env naming parse written dispatching is_comm available (λ l on. ground arith)
      fresh_bus idle_pool waking_up fresh_bus_starts waking_up-Run refl refl

-- A daemon that has always got a message, of a notification in one part.
abbrev talking_env : Env
talking_env = record env {
  sp_receive = λ h m. record {
    ret = pos 1;
    service_type = pos 2;
    num_groups = pos 0;
    groups = [];
    buffer = 1 ∷ [];
  };
}

abbrev whole : Text → Option Fragment
whole t = some (record {
  notification = record notification { payload = t };
  num_data_parts = 1;
  data_part = 0;
})

abbrev Talk : System Text ℕ → System Text ℕ → Type 0
Talk = Reach talking_env naming whole written dispatching is_comm (λ h. true)

abbrev talking : System Text ℕ
talking = started (Bus.activate talking_env fresh_bus).1 idle_pool

-- The bus when it has been activated, with the calls that were made since.
abbrev open_bus : History → ℕ → Bus ℕ
open_bus h n = record {
  active = true;
  memberships = record {
    link = record {
      connection = record {
        connected = true;
        host = 104 ∷ [];
        port = 4803;
        daemon_name = 48 ∷ 64 ∷ 104 ∷ [];
        mailbox = pos 7;
        private_group = 35 ∷ 109 ∷ [];
      };
      history = h ++ Call.connect (48 ∷ 64 ∷ 104 ∷ []) ∷ [];
    };
    groups = [];
  };
  receiver = some running;
  sinks = n;
}

abbrev talking_at : Position Text → History → ℕ → System Text ℕ
talking_at p h n = record {
  bus = open_bus h n;
  pool = idle_pool;
  owners = 1;
  position = p;
  stage = alive;
}

abbrev received : Message
received = record new_message { type = regular; payload = 1 ∷ [] }

abbrev passed_on : Transported Text
passed_on = record incoming_example {
  serialized_payload = 1 ∷ [];
  notification = record notification { payload = 1 ∷ [] };
}

talking_run : Talk talking (talking_at receiving [] 0)
unfolding new_bus new_connection Bus.activate Connection.activate move ℤ_discrete c_str
    Text_discrete Connection.default_host bytes
talking_run = later here (moves 0 refl refl)

handling_run : Talk talking (talking_at (handling received) (Call.receive (pos 7) ∷ []) 0)
unfolding move Connection.receive ℤ_discrete
handling_run = later talking_run (moves 0 refl refl)

holding_run : Talk talking (talking_at (holding passed_on) (Call.receive (pos 7) ∷ []) 0)
unfolding move handle_message
holding_run = later handling_run (moves 0 refl refl)

dispatching_run :
    Talk talking (talking_at (System.dispatching passed_on) (Call.receive (pos 7) ∷ []) 0)
unfolding move lock_bus
dispatching_run = later holding_run (moves 0 refl refl)

-- The owner releases the bus while the receiver hands the event on.
abbrev released_at : Position Text → ℕ → Stage → System Text ℕ
released_at p n g = record (talking_at p (Call.receive (pos 7) ∷ []) n) { owners = 0; stage = g }

released_run : Talk talking (released_at (System.dispatching passed_on) 0 alive)
unfolding release
released_run = later dispatching_run (releases (ground arith) refl refl)

unlocking_run : Talk talking (released_at (unlocking next_round) 1 alive)
unfolding move Bus.handle_incoming
unlocking_run = later released_run (moves 0 refl refl)

hanging_run : Talk talking (released_at closing_down 1 cancelling)
unfolding move unlock
hanging_run = later unlocking_run (moves 0 refl refl)

talking_starts : (Bus.activate talking_env fresh_bus).0 ≡ ok tt
unfolding new_bus new_connection Bus.activate Connection.activate ℤ_discrete
talking_starts = refl

closing_down_hangs_example :
    let s = released_at closing_down 1 cancelling in
    (is_done s.position ≡ false) × (is_closed s.stage ≡ false)
closing_down_hangs_example =
    closing_down_hangs talking_env naming whole written dispatching is_comm (λ h. true) fresh_bus
      idle_pool (released_at closing_down 1 cancelling) (released_at closing_down 1 cancelling)
      talking_starts hanging_run refl here

abbrev cut_off_env : Env
cut_off_env = record talking_env { sp_receive = broken_env.sp_receive }

settle_broken_example :
    let s = talking_at receiving [] 0 in
    let t = settle cut_off_env naming whole written dispatching is_comm 0 8 s in
    (receiver_of cut_off_env naming whole written dispatching is_comm 0 t ≡ record {
      link = log_call (Call.receive (System.link s).mailbox) (System.link s);
      pool = s.pool;
      cancelled = true;
      handled = 0;
    })
    × (t.position ≡ ready)
    × ((move cut_off_env naming whole written dispatching is_comm 0 t.position t).position ≡ done)
settle_broken_example =
    settle_broken cut_off_env naming whole written dispatching is_comm 0 (talking_at receiving [] 0)
      (ground arith) refl refl refl refl refl
