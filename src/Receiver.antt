-- ===== src/Receiver.antt =====
-- src/rsb/transport/spread/ReceiverTask.{h,cpp}: one round of the thread that receives.
pub mod Rounds
use rsb_spread_cpp.Base.{
  ◌>>=◌, ◌>>◌, ℕ, Bool, true, false, Option, none, some, if◌then◌else◌, Text, Exception,
  thread_interrupted, Result, ok, throw, fault, Action, ◌>>◌, pure, raise, modify, zoom, and_then,
}
use rsb_spread_cpp.Spread.{Env}
use rsb_spread_cpp.Protocol.{Fragment}
use rsb_spread_cpp.Message.{Message, new_message}
use rsb_spread_cpp.Notifications.{Transported}
use rsb_spread_cpp.GroupNameCache.{Naming}
use rsb_spread_cpp.Connection
use rsb_spread_cpp.Connection.{Link}
use rsb_spread_cpp.Pool
use rsb_spread_cpp.Pool.{Pool}
use rsb_spread_cpp.Deserializing.{new_handler, handle_message}

-- What the task calls. `is_comm_exception` says which exceptions `catch (const CommException&)`
-- takes; the classes are those of the core library.
pub record Handler (Scope H : Type 0) : Type 0 where
  pub handle_incoming : Transported Scope → Action H (Unit {0})
  pub handle_error : Exception → Action H (Unit {0})
  pub is_comm_exception : Exception → Bool

-- The connection that it reads from, the pool of its message handler, whether it was cancelled, and
-- the state of what it calls.
pub record Receiver (H : Type 0) : Type 0 where
  pub link : Link
  pub pool : Pool
  pub cancelled : Bool
  pub handled : H

unfoldable pub new_receiver : {H : Type 0} → Link → H → Result (Receiver H)
unfolding new_handler
new_receiver l h =
    and_then new_handler (λ p. ok (record { link = l; pool = p; cancelled = false; handled = h }))

module _ {Scope H : Type 0} (env : Env) (naming : Naming Scope) (parse : Text → Option Fragment)
    (handler : Handler Scope H) where
  abbrev put_handled : Receiver H → H → Receiver H
  put_handled s h = record s { handled = h }

  unfoldable pub notify : Option (Transported Scope) → Action (Receiver H) (Unit {0})
  notify none = pure tt
  notify (some n) = zoom (λ s. s.handled) put_handled (handler.handle_incoming n)

  -- Receives into a new message.
  unfoldable pub receive_message : Action (Receiver H) Message
  receive_message s =
      let (r, t) = Connection.receive env (record { link = s.link; message = new_message }) in
      (and_then r (λ _. ok t.message), record s { link = t.link })

  -- The body of the `try`.
  unfoldable pub attempt : ℕ → Action (Receiver H) (Unit {0})
  unfolding receive_message notify
  attempt now = do
    m ← receive_message
    n ← zoom (λ s. s.pool) (λ s p. record s { pool = p }) (handle_message env naming parse now m)
    notify n

  -- The two `catch` clauses.
  unfoldable pub recover : Exception → Action (Receiver H) (Unit {0})
  recover e =
      if handler.is_comm_exception e
      then zoom (λ s. s.handled) put_handled (handler.handle_error e)
        >> modify (λ s. record s { cancelled = true })
      else interrupted e
    where
      interrupted : Exception → Action (Receiver H) (Unit {0})
      interrupted thread_interrupted = pure tt
      interrupted other = raise other

  abbrev pub caught : Result (Unit {0}) × Receiver H → Result (Unit {0}) × Receiver H
  caught (ok _, t) = (ok tt, t)
  caught (throw e, t) = recover e t
  caught (fault x, t) = (fault x, t)

  unfoldable pub execute : ℕ → Action (Receiver H) (Unit {0})
  unfolding attempt
  execute now s = caught (attempt now s)

  abbrev pub set_pruning : Bool → Receiver H → Receiver H
  set_pruning on s = record s { pool = Pool.set_pruning on s.pool }
