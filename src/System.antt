-- ===== src/System.antt =====
-- The threads of a process on one bus: those that own it, and the receiver's.
-- src/rsb/transport/spread/ BusImpl.cpp and ReceiverTask.cpp, with what the code relies on: a
-- task of rsc is executed until it is cancelled, `waitDone` returns when it has ended, and the
-- destructor of a bus runs on the thread that releases the last `boost::shared_ptr` to it.
pub mod Soundness
pub mod Rounds
pub mod Safety
pub mod Closing
pub mod Destruction
use rsb_spread_cpp.Base.{
  ℕ, ◌+◌, ◌-◌, ◌≤◌, ◌≡◌, Bool, true, false, ◌&&◌, not, Option, none, some, ◌==◌, if◌then◌else◌,
  Text, Exception, thread_interrupted, Result, ok, throw, fault, and_then,
}
use rsb_spread_cpp.Spread.{History, Env}
use rsb_spread_cpp.Protocol.{Fragment}
use rsb_spread_cpp.Message.{Message, new_message}
use rsb_spread_cpp.Notifications.{Transported, Outgoing}
use rsb_spread_cpp.GroupNameCache.{Naming}
use rsb_spread_cpp.Connection
use rsb_spread_cpp.Connection.{Link, interrupt_receive}
use rsb_spread_cpp.Pool.{Pool, TaskState, finished}
use rsb_spread_cpp.Deserializing.{handle_message}
use rsb_spread_cpp.Bus
use rsb_spread_cpp.Bus.{
  Dispatching, Bus, connection, on_connection, cancel_receiver, add_sink, remove_sink,
  handle_outgoing, handle_incoming, handle_error,
}

-- What follows when the receiver has released the bus: its next round, the exception that a handler
-- threw, the end of its task, or the end of the process.
pub data Next : Type 0 where
  next_round stopping broken : Next
  raised : Exception → Next

-- Where the receiver's thread is. From `dispatching` to `unlocking` it holds the bus.
pub data Position (Scope : Type 0) : Type 0 where
  ready receiving closing_down done terminated : Position Scope
  handling : Message → Position Scope
  holding : Transported Scope → Position Scope
  dispatching : Transported Scope → Position Scope
  failing : Exception → Position Scope
  reporting : Exception → Position Scope
  unlocking : Next → Position Scope

-- How far the destructor of the bus has come.
pub data Stage : Type 0 where
  alive cancelling waking waiting disconnecting closed : Stage

-- `owners` counts the pointers to the bus that are not the receiver's.
pub record System (Scope Sinks : Type 0) : Type 0 where
  pub bus : Bus Sinks
  pub pool : Pool
  pub owners : ℕ
  pub position : Position Scope
  pub stage : Stage

-- What an owner does with the bus.
pub data Use (Scope Sink : Type 0) : Type 0 where
  adds removes : Scope → Sink → Use Scope Sink
  sends : Outgoing Scope → Use Scope Sink

abbrev pub is_cancelled : Option TaskState → Bool
is_cancelled (some finished) = true
is_cancelled _ = false

abbrev pub is_done : {Scope : Type 0} → Position Scope → Bool
is_done done = true
is_done _ = false

-- Whether the process has ended there.
abbrev pub is_terminated : {Scope : Type 0} → Position Scope → Bool
is_terminated terminated = true
is_terminated _ = false

-- Whether the receiver holds the bus there.
abbrev pub locks : {Scope : Type 0} → Position Scope → Bool
locks (dispatching n) = true
locks (reporting e) = true
locks (unlocking n) = true
locks _ = false

module _ {Scope : Type 0} where
  -- Where a message, an exception or a fault leads.
  abbrev after_receive : Result Message → Position Scope
  after_receive (ok m) = handling m
  after_receive (throw e) = failing e
  after_receive (fault x) = terminated

  abbrev after_handling : Result (Option (Transported Scope)) → Position Scope
  after_handling (ok none) = ready
  after_handling (ok (some n)) = holding n
  after_handling (throw e) = failing e
  after_handling (fault x) = terminated

  abbrev after_dispatch : Result (Unit {0}) → Position Scope
  after_dispatch (ok _) = unlocking next_round
  after_dispatch (throw e) = unlocking (raised e)
  after_dispatch (fault x) = terminated

  abbrev after_report : Result (Unit {0}) → Position Scope
  after_report (ok _) = unlocking stopping
  after_report (throw e) = unlocking broken
  after_report (fault x) = terminated

  abbrev pub can_close : Stage → Position Scope → Bool
  can_close alive p = false
  can_close cancelling p = true
  can_close waking p = true
  can_close waiting p = is_done p
  can_close disconnecting p = true
  can_close closed p = false

  -- `available` says whether `SP_receive` returns after these calls; until then it waits.
  abbrev pub can_move : (History → Bool) → Position Scope → History → Bool
  can_move available receiving h = available h
  can_move available closing_down h = false
  can_move available done h = false
  can_move available terminated h = false
  can_move available _ h = true

module _ {Scope Sinks : Type 0} where
  abbrev pub link : System Scope Sinks → Link
  link s = connection s.bus

  abbrev pub at : Position Scope → System Scope Sinks → System Scope Sinks
  at p s = record s { position = p }

  abbrev put_bus : Bus Sinks → System Scope Sinks → System Scope Sinks
  put_bus b s = record s { bus = b }

  -- `cancel` of the receiver's task.
  abbrev cancelled : System Scope Sinks → System Scope Sinks
  cancelled s = record s { bus = record s.bus { receiver = some finished } }

  -- The adapter's `lock`, which fails once nobody owns the bus.
  unfoldable pub lock_bus :
      Position Scope → System Scope Sinks → System Scope Sinks → System Scope Sinks
  lock_bus p gone s = if s.owners == 0 then gone else at p s

  abbrev resume : Next → System Scope Sinks → System Scope Sinks
  resume next_round s = at ready s
  resume (raised e) s = at (failing e) s
  resume stopping s = at ready (cancelled s)
  resume broken s = at terminated s

  -- A pointer is released, on the owner's thread or on the receiver's; the last one takes the bus
  -- with it.
  unfoldable pub release : System Scope Sinks → System Scope Sinks
  release s =
      if s.owners == 1 && not (locks s.position)
      then record s { owners = 0; stage = cancelling }
      else record s { owners = s.owners - 1 }

  unfoldable pub unlock : Next → System Scope Sinks → System Scope Sinks
  unlock n s =
      if s.owners == 0 then record s { position = closing_down; stage = cancelling } else resume n s

  -- A bus that has just been activated, with one owner.
  abbrev pub started : Bus Sinks → Pool → System Scope Sinks
  started b p = record { bus = b; pool = p; owners = 1; position = ready; stage = alive }

  -- The destructor, up to its next wait or call.
  unfoldable pub close_step : Env → Stage → System Scope Sinks → System Scope Sinks
  close_step env cancelling s = record s { bus = (cancel_receiver s.bus).1; stage = waking }
  close_step env waking s = record s {
    bus = (on_connection (interrupt_receive env) s.bus).1;
    stage = waiting;
  }
  close_step env waiting s = record s { stage = disconnecting }
  close_step env disconnecting s =
      let b = (on_connection Connection.deactivate s.bus).1 in
      record s { bus = record b { active = false }; stage = closed }
  close_step env _ s = s

module _ {Scope Sink Sinks : Type 0} (env : Env) (naming : Naming Scope)
    (parse : Text → Option Fragment) (serialize : Fragment → Option Text)
    (dispatching_of : Dispatching Scope Sink Sinks) (is_comm : Exception → Bool) where
  -- The two `catch` clauses of `execute`, and what no clause takes.
  abbrev caught : Exception → System Scope Sinks → System Scope Sinks
  caught thread_interrupted s = at ready s
  caught _ s = at terminated s

  -- The receiver's thread, from where it is to its next step.
  unfoldable pub move : ℕ → Position Scope → System Scope Sinks → System Scope Sinks
  unfolding lock_bus unlock
  move now ready s = if is_cancelled s.bus.receiver then at done s else at receiving s
  move now receiving s =
      let (r, t) = Connection.receive env (record { link = link s; message = new_message }) in
      at (after_receive (and_then r (λ _. ok t.message)))
        (put_bus (Bus.put_connection s.bus t.link) s)
  move now (handling m) s =
      let (r, p) = handle_message env naming parse now m s.pool in
      at (after_handling r) (record s { pool = p })
  move now (holding n) s = lock_bus (dispatching n) (at ready s) s
  move now (dispatching n) s =
      let (r, b) = handle_incoming env naming dispatching_of n s.bus in
      at (after_dispatch r) (put_bus b s)
  move now (failing e) s =
      if is_comm e then lock_bus (reporting e) (at ready (cancelled s)) s else caught e s
  move now (reporting e) s =
      let (r, b) = handle_error env naming dispatching_of e s.bus in
      at (after_report r) (put_bus b s)
  move now (unlocking n) s = unlock n s
  move now _ s = s

  unfoldable pub use_bus : Use Scope Sink → Bus Sinks → Bus Sinks
  use_bus (adds scope sink) b = (add_sink env naming dispatching_of scope sink b).1
  use_bus (removes scope sink) b = (remove_sink env naming dispatching_of scope sink b).1
  use_bus (sends o) b = (handle_outgoing env naming dispatching_of serialize o b).1

  -- The threads' steps, in any order.
  pub data Step (available : History → Bool) (s t : System Scope Sinks) : Type 0 where
    uses :
        (u : Use Scope Sink)
        → 1 ≤ s.owners
        → is_terminated s.position ≡ false
        → t ≡ record s { bus = use_bus u s.bus }
        → Step available s t
    shares :
        1 ≤ s.owners
        → is_terminated s.position ≡ false
        → t ≡ record s { owners = s.owners + 1 }
        → Step available s t
    releases : 1 ≤ s.owners → is_terminated s.position ≡ false → t ≡ release s → Step available s t
    closes :
        can_close s.stage s.position ≡ true
        → is_terminated s.position ≡ false
        → t ≡ close_step env s.stage s
        → Step available s t
    moves :
        (now : ℕ)
        → can_move available s.position (link s).history ≡ true
        → t ≡ move now s.position s
        → Step available s t

  pub data Reach (available : History → Bool) (s : System Scope Sinks)
      : System Scope Sinks → Type 0 where
    here : Reach available s s
    later :
        {t u : System Scope Sinks} → Reach available s t → Step available t u → Reach available s u
