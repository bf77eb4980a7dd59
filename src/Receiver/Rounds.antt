-- ===== src/Receiver/Rounds.antt =====
-- How a round of the receiver ends when it is interrupted and when the connection breaks.
use rsb_spread_cpp.Base.{
  ℕ, ◌≡◌, refl, ap, ◌∙◌, true, false, Option, ◌++◌, arith, ℤ, is_negative, Text, bytes, c_str,
  Exception, comm_error, thread_interrupted, Result, ok, throw, ◌>>=◌, zoom, >>=-throw, and_then,
}
use rsb_spread_cpp.Spread.{Call, Env}
use rsb_spread_cpp.ErrorMessages.{spread_error_string}
use rsb_spread_cpp.Protocol.{Fragment}
use rsb_spread_cpp.Message.{Message, new_message}
use rsb_spread_cpp.GroupNameCache.{Naming}
use rsb_spread_cpp.Connection.{Link, Reception, receive, interrupt_receive, log_call}
use rsb_spread_cpp.Connection.Delivery.{Delivers, latest, receive-interrupt_receive}
use rsb_spread_cpp.Receiver.{
  Handler, Receiver, caught, attempt, receive_message, recover, execute, notify,
}
use rsb_spread_cpp.Deserializing.{handle_message}

module _ {Scope H : Type 0} (env : Env) (naming : Naming Scope) (parse : Text → Option Fragment)
    (handler : Handler Scope H) (now : ℕ) (s : Receiver H) where
  attempt_throws :
      (e : Exception) (l : Link) (m : Message)
      → receive env (record { link = s.link; message = new_message })
        ≡ (throw e, record { link = l; message = m })
      → execute env naming parse handler now s
        ≡ recover env naming parse handler e (record s { link = l })
  unfolding execute attempt receive_message
  attempt_throws e l m h = ap (caught env naming parse handler) (
      >>=-throw (receive_message env naming parse handler)
        (λ m.
          zoom (λ s. s.pool) (λ s p. record s { pool = p }) (handle_message env naming parse now m)
          >>= notify env naming parse handler)
        s
        (ap
          (λ (r : Result (Unit {0}) × Reception).
            (and_then r.0 (λ _. ok r.1.message), record s { link = r.1.link }))
          h))

  recover_comm :
      (e : Exception) (t : Receiver H)
      → handler.is_comm_exception e ≡ true
      → (handler.handle_error e t.handled).0 ≡ ok tt
      → recover env naming parse handler e t
        ≡ (ok tt, record t { cancelled = true; handled = (handler.handle_error e t.handled).1 })
  unfolding recover
  recover_comm e t comm told = ground arith

-- A round of the receiver that gets what `interruptReceive` sent ends without an exception and
-- calls no handler, and neither the pool nor the task's own state changes. This asks that the
-- two are of one session whose group's name holds no NUL byte, and that the interruption is no
-- `CommException`.
pub execute_interrupted :
    {Scope H : Type 0} (env : Env) (naming : Naming Scope) (parse : Text → Option Fragment)
    (handler : Handler Scope H) (now : ℕ) (l : Link) (s : Receiver H)
    → (interrupt_receive env l).0 ≡ ok tt
    → Delivers env
        (latest env (interrupt_receive env l).1.history)
        (env.sp_receive s.link.history s.link.mailbox)
    → s.link.private_group ≡ l.private_group
    → c_str l.private_group ≡ l.private_group
    → s.link.connected ≡ true
    → handler.is_comm_exception thread_interrupted ≡ false
    → execute env naming parse handler now s
      ≡ (ok tt, record s { link = log_call (Call.receive s.link.mailbox) s.link })
unfolding recover
execute_interrupted env naming parse handler now l s sent d same whole on not_comm =
    attempt_throws env naming parse handler now s thread_interrupted _ _ (
      receive-interrupt_receive env l (record { link = s.link; message = new_message }) sent d same
        whole on)
    ∙ rw not_comm refl

-- The exception for a negative answer of `SP_receive`.
abbrev pub receive_error : Env → ℤ → Exception
receive_error env ret = comm_error (bytes "Spread receive error: " ++ spread_error_string env ret)

receive_broken :
    (env : Env) (l : Link)
    → l.connected ≡ true
    → is_negative (env.sp_receive l.history l.mailbox).ret ≡ true
    → receive env (record { link = l; message = new_message }) ≡ (
      throw (receive_error env (env.sp_receive l.history l.mailbox).ret),
      record { link = log_call (Call.receive l.mailbox) l; message = new_message },
    )
unfolding receive
receive_broken env l on bad = ground arith

-- A round of the receiver in which the client library reports an error tells the handler of
-- exactly that error, cancels the task and returns; the pool stays. This asks that the handler
-- returns.
pub execute_broken :
    {Scope H : Type 0} (env : Env) (naming : Naming Scope) (parse : Text → Option Fragment)
    (handler : Handler Scope H) (now : ℕ) (s : Receiver H)
    → let e = receive_error env (env.sp_receive s.link.history s.link.mailbox).ret in
      s.link.connected ≡ true
      → is_negative (env.sp_receive s.link.history s.link.mailbox).ret ≡ true
      → handler.is_comm_exception e ≡ true
      → (handler.handle_error e s.handled).0 ≡ ok tt
      → execute env naming parse handler now s ≡ (
        ok tt,
        record s {
          link = log_call (Call.receive s.link.mailbox) s.link;
          cancelled = true;
          handled = (handler.handle_error e s.handled).1;
        },
      )
execute_broken env naming parse handler now s on bad comm told =
    attempt_throws env naming parse handler now s _ _ _ (receive_broken env s.link on bad)
    ∙ recover_comm env naming parse handler now s _ _ comm told
