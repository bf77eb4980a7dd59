-- ===== src/InConnector.antt =====
-- src/rsb/transport/spread/InConnector.{h,cpp}: turns the notifications of a scope into events
-- for its handlers. Events, converters and handlers come from the core library.
pub mod Dispatching
pub mod Returning
pub mod Connecting
pub mod Shares
pub mod Sharing
use rsb_spread_cpp.Base.{
  Bool, true, false, not, List, [], ◌∷◌, if◌then◌else◌, Text, bytes, Exception, thread_interrupted,
  Result, ok, throw, fault, Action, ◌>>=◌, ◌>>◌, pure, modify, check, zoom, exited,
}
use rsb_spread_cpp.Spread.{Env}
use rsb_spread_cpp.Notifications.{Transported}
use rsb_spread_cpp.ConnectorBase

pub data ErrorStrategy : Type 0 where
  log print exit : ErrorStrategy

-- A message about an error: what was done, the exception, and how it goes on.
pub record Report : Type 0 where
  pub context : Text
  pub exception : Exception
  pub continuation : Text

-- Where the handlers act, and the messages in the log and on the standard error stream, the latest
-- first.
pub record World (W : Type 0) : Type 0 where
  pub outside : W
  pub log_lines : List Report
  pub error_lines : List Report

-- What the connector uses of events, converters and handlers. Filling may end early, with what it
-- wrote until then.
pub record Consuming (Scope Data Event Receiver W : Type 0) : Type 0 where
  pub new_event : Event
  pub deserialize : Transported Scope → Result Data
  pub fill_event : Transported Scope → Data → Action Event (Unit {0})
  pub set_receive_time : Event → Event
  pub handle : Receiver → Event → Action W (Unit {0})

pub record InConnector (Scope Receiver : Type 0) : Type 0 where
  pub active : Bool
  pub scope : Scope
  pub error_strategy : ErrorStrategy
  pub handlers : List Receiver

-- `catch (const std::exception&)` takes all exceptions but the interruption of the thread.
abbrev pub is_std_exception : Exception → Bool
is_std_exception thread_interrupted = false
is_std_exception _ = true

abbrev pub report : Text → Exception → Text → Report
report context e how = record { context = context; exception = e; continuation = how }

module _ {W : Type 0} where
  abbrev pub logged : Report → World W → World W
  logged r w = record w { log_lines = r ∷ w.log_lines }

  abbrev pub printed : Report → World W → World W
  printed r w = record w { error_lines = r ∷ w.error_lines }

  -- The private `handleError`, with the text for going on and the text for the end.
  unfoldable pub handle_error_in :
      ErrorStrategy → Text → Exception → Text → Text → Action (World W) (Unit {0})
  handle_error_in log context e on off w = (ok tt, logged (report context e on) w)
  handle_error_in print context e on off w = (ok tt, printed (report context e on) w)
  handle_error_in exit context e on off w = (fault exited, logged (report context e off) w)

  -- A `try` whose handler is `handleError`.
  abbrev pub try_with :
      {A : Type 0} → (Exception → Action (World W) A) → Action (World W) A → Action (World W) A
  try_with {A} on_error m w = caught (m w)
    where
      caught : Result A × World W → Result A × World W
      caught (ok a, v) = (ok a, v)
      caught (throw e, v) = if is_std_exception e then on_error e v else (throw e, v)
      caught (fault x, v) = (fault x, v)

unfoldable pub new_in_connector : {Scope Receiver : Type 0} → Scope → InConnector Scope Receiver
new_in_connector scope = record {
  active = false;
  scope = scope;
  error_strategy = log;
  handlers = [];
}

module _ {Scope Data Event Receiver W : Type 0}
    (consuming : Consuming Scope Data Event Receiver W) where
  -- What the `try` in `notificationToEvent` makes of the new event.
  unfoldable pub convert : Transported Scope → Action Event (Unit {0})
  convert n e = elim (consuming.deserialize n) [
    | ok d ↦ (consuming.fill_event n d >> modify consuming.set_receive_time) e
    | throw x ↦ (throw x, e)
    | fault x ↦ (fault x, e)
  ]

  -- The event is returned in any case.
  unfoldable pub notification_to_event : ErrorStrategy → Transported Scope → Action (World W) Event
  unfolding convert handle_error_in
  notification_to_event strategy n w =
      let (r, e) = convert n consuming.new_event in
      (try_with
            (λ x.
              handle_error_in strategy (bytes "deserializing notification") x
                (bytes "Continue with next notification") (bytes "Terminating"))
            (λ v. (r, v))
          >> pure e)
        w

  unfoldable pub dispatch : List Receiver → Event → Action W (Unit {0})
  dispatch [] e = pure tt
  dispatch (h ∷ hs) e = consuming.handle h e >> dispatch hs e

  unfoldable pub handle_notification :
      InConnector Scope Receiver → Transported Scope → Action (World W) (Unit {0})
  unfolding notification_to_event dispatch
  handle_notification c n = notification_to_event c.error_strategy n >>= λ e.
      try_with
        (λ x.
          handle_error_in c.error_strategy (bytes "dispatching event to handlers") x
            (bytes "Continuing with next event") (bytes "Terminating"))
        (zoom (λ w. w.outside) (λ w o. record w { outside = o }) (dispatch c.handlers e))

  unfoldable pub handle_error : InConnector Scope Receiver → Exception → Action (World W) (Unit {0})
  unfolding handle_error_in
  handle_error c x =
      handle_error_in c.error_strategy (bytes "receiving Spread message") x
        (bytes "Skipping message") (bytes "Terminating")

-- Empty in the source, too.
abbrev pub set_quality_of_service_specs :
    {Scope Receiver : Type 0} → InConnector Scope Receiver → InConnector Scope Receiver
set_quality_of_service_specs c = c

abbrev pub set_error_strategy :
    {Scope Receiver : Type 0}
    → ErrorStrategy
    → InConnector Scope Receiver
    → InConnector Scope Receiver
set_error_strategy s c = record c { error_strategy = s }

unfoldable pub set_scope :
    {Scope Receiver : Type 0} → Env → Scope → Action (InConnector Scope Receiver) (Unit {0})
set_scope env scope = do
  λ c. check env.ndebug (not c.active) c
  modify (λ c. record c { scope = scope })

-- The connector with the bus that it is on. `add_sink` and `remove_sink` are the calls on the bus
-- with the connector as the sink.
module _ {Scope Receiver Bus : Type 0} (on_bus : Scope → Action Bus (Unit {0})) where
  abbrev bus_call : Action (InConnector Scope Receiver × Bus) (Unit {0})
  bus_call s = zoom (λ s. s.1) (λ s b. (s.0, b)) (on_bus s.0.scope) s

  unfoldable pub activate : Action (InConnector Scope Receiver × Bus) (Unit {0})
  activate = do
    λ s. (ConnectorBase.activate s.0.active, s)
    bus_call
    modify (λ s. (record s.0 { active = true }, s.1))

  unfoldable pub deactivate : Action (InConnector Scope Receiver × Bus) (Unit {0})
  deactivate = do
    λ s. (ConnectorBase.deactivate s.0.active, s)
    bus_call
    modify (λ s. (record s.0 { active = false }, s.1))

  -- The destructor.
  unfoldable pub destroy : Action (InConnector Scope Receiver × Bus) (Unit {0})
  unfolding deactivate
  destroy s = if s.0.active then deactivate s else (ok tt, s)
