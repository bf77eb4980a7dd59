-- ===== src/System/Rounds.antt =====
-- The steps of the receiver's thread between two rounds, when no other thread comes between.
use rsb_spread_cpp.Base.{
  ◌>>=◌, zoom, refl, ap, ◌∙◌, is_negative, ℕ, zero, suc, ◌+◌, ◌≤◌, ◌≡◌, Bool, true, false, Option,
  none, some, arith, Text, Result, Action, Exception, ok, throw, fault, if◌then◌else◌,
}
use rsb_spread_cpp.Spread.{Call, Env}
use rsb_spread_cpp.Protocol.{Fragment}
use rsb_spread_cpp.Message.{Message, new_message}
use rsb_spread_cpp.Notifications.{Transported}
use rsb_spread_cpp.GroupNameCache.{Naming}
use rsb_spread_cpp.Connection
use rsb_spread_cpp.Connection.{log_call}
use rsb_spread_cpp.Receiver.Rounds.{receive_error, execute_broken}
use rsb_spread_cpp.Deserializing.{handle_message}
use rsb_spread_cpp.Receiver
use rsb_spread_cpp.Receiver.{Handler, Receiver, execute, attempt, recover, notify, receive_message}
use rsb_spread_cpp.Bus.{Dispatching, handle_incoming, handle_error}
use rsb_spread_cpp.System.{
  System, Position, raised, dispatching, ready, receiving, done, terminated, closing_down, handling,
  holding, failing, reporting, unlocking, link, is_cancelled, move, lock_bus, unlock,
}

-- Whether a round has ended there.
abbrev at_rest : {Scope : Type 0} → Position Scope → Bool
at_rest ready = true
at_rest done = true
at_rest terminated = true
at_rest closing_down = true
at_rest _ = false

-- Where a round ends; a task that throws ends the process.
abbrev pub after_round : {Scope : Type 0} → Result (Unit {0}) → Position Scope
after_round (ok _) = ready
after_round _ = terminated

module _ {Scope Sink Sinks : Type 0} (env : Env) (naming : Naming Scope)
    (parse : Text → Option Fragment) (serialize : Fragment → Option Text)
    (dispatching_of : Dispatching Scope Sink Sinks) (is_comm : Exception → Bool) (now : ℕ) where
  -- The sinks of the bus, as what the receiver calls.
  abbrev pub sinks_handler : Handler Scope Sinks
  sinks_handler = record {
    handle_incoming = λ n. dispatching_of.map_sinks n.scope n;
    handle_error = dispatching_of.map_all;
    is_comm_exception = is_comm;
  }

  -- What the receiver sees of the process.
  abbrev pub receiver_of : System Scope Sinks → Receiver Sinks
  receiver_of s = record {
    link = link s;
    pool = s.pool;
    cancelled = is_cancelled s.bus.receiver;
    handled = s.bus.sinks;
  }

  -- The receiver's steps until its round ends, so many at most.
  unfoldable pub settle : ℕ → System Scope Sinks → System Scope Sinks
  unfolding move
  settle zero s = s
  settle (suc n) s =
      let rest =
        settle n (move env naming parse serialize dispatching_of is_comm now s.position s) in
      if at_rest s.position then s else rest

  -- A round ends in the state that `execute` leaves.
  abbrev pub Executes : Result (Unit {0}) × Receiver Sinks → System Scope Sinks → Type 0
  Executes out t = (receiver_of t ≡ out.1) × (t.position ≡ after_round out.0)

  settle_rest : (n : ℕ) (s : System Scope Sinks) → at_rest s.position ≡ true → settle n s ≡ s
  unfolding settle
  settle_rest zero s h = refl
  settle_rest (suc n) s h = ground arith

  abbrev moved : System Scope Sinks → System Scope Sinks
  moved s = move env naming parse serialize dispatching_of is_comm now s.position s

  settle_step :
      (n : ℕ) (s : System Scope Sinks)
      → at_rest s.position ≡ false
      → settle (suc n) s ≡ settle n (moved s)
  unfolding settle
  settle_step n s h = ground arith

  reporting-Executes :
      (n : ℕ) (e : Exception) (s : System Scope Sinks)
      → 1 ≤ s.owners
      → s.position ≡ reporting e
      → is_comm e ≡ true
      → Executes (recover env naming parse sinks_handler e (receiver_of s)) (settle (suc (suc n)) s)
  unfolding move unlock handle_error recover
  reporting-Executes n e s h p c =
      let a = settle_step (suc n) s (ground arith) in
      let b = settle_step n (moved s) in
      let d = settle_rest (suc n) (moved s) in
      let f = settle_rest n (moved (moved s)) in ground arith

  failing-Executes :
      (n : ℕ) (e : Exception) (s : System Scope Sinks)
      → 1 ≤ s.owners
      → s.position ≡ failing e
      → Executes
          (recover env naming parse sinks_handler e (receiver_of s))
          (settle (suc (suc (suc n))) s)
  unfolding move lock_bus recover
  failing-Executes n e s h p =
      let a = settle_step (suc (suc n)) s (ground arith) in
      let b = settle_rest (suc (suc n)) (moved s) in
      let r = reporting-Executes n e (moved s) in ground arith

  abbrev handler_caught : Result (Unit {0}) × Receiver Sinks → Result (Unit {0}) × Receiver Sinks
  handler_caught = Receiver.caught env naming parse sinks_handler

  unlocking-Executes :
      (n : ℕ) (e : Exception) (s : System Scope Sinks)
      → 1 ≤ s.owners
      → s.position ≡ unlocking (raised e)
      → Executes (recover env naming parse sinks_handler e (receiver_of s)) (settle (4 + n) s)
  unfolding move unlock
  unlocking-Executes n e s h p =
      let a = settle_step (3 + n) s (ground arith) in
      let r = failing-Executes n e (moved s) in ground arith

  dispatching-Executes :
      (n : ℕ) (i : Transported Scope) (r : Result (Unit {0})) (s : System Scope Sinks)
      → 1 ≤ s.owners
      → s.position ≡ dispatching i
      → (dispatching_of.map_sinks i.scope i s.bus.sinks).0 ≡ r
      → Executes
          (handler_caught (notify env naming parse sinks_handler (some i) (receiver_of s)))
          (settle (5 + n) s)
  unfolding move unlock handle_incoming notify
  dispatching-Executes n i (ok _) s h p q =
      let a = settle_step (4 + n) s (ground arith) in
      let b = settle_step (3 + n) (moved s) in
      let d = settle_rest (3 + n) (moved (moved s)) in ground arith
  dispatching-Executes n i (throw e) s h p q =
      let a = settle_step (4 + n) s (ground arith) in
      let r = unlocking-Executes n e (moved s) in ground arith
  dispatching-Executes n i (fault x) s h p q =
      let a = settle_step (4 + n) s (ground arith) in
      let c = settle_rest (4 + n) (moved s) in ground arith

  holding-Executes :
      (n : ℕ) (i : Transported Scope) (s : System Scope Sinks)
      → 1 ≤ s.owners
      → s.position ≡ holding i
      → Executes
          (handler_caught (notify env naming parse sinks_handler (some i) (receiver_of s)))
          (settle (6 + n) s)
  unfolding move lock_bus
  holding-Executes n i s h p =
      let a = settle_step (5 + n) s (ground arith) in
      let r =
        dispatching-Executes n i (dispatching_of.map_sinks i.scope i s.bus.sinks).0 (moved s) in
      ground arith

  -- What follows when a message has been received.
  abbrev after_message : Message → Action (Receiver Sinks) (Unit {0})
  after_message m = do
    n ← zoom (λ s. s.pool) (λ s p. record s { pool = p }) (handle_message env naming parse now m)
    notify env naming parse sinks_handler n

  handling-Executes :
      (n : ℕ) (m : Message) (r : Result (Option (Transported Scope))) (s : System Scope Sinks)
      → 1 ≤ s.owners
      → s.position ≡ handling m
      → (handle_message env naming parse now m s.pool).0 ≡ r
      → Executes (handler_caught (after_message m (receiver_of s))) (settle (7 + n) s)
  unfolding move notify
  handling-Executes n m (ok none) s h p q =
      let a = settle_step (6 + n) s (ground arith) in
      let b = settle_rest (6 + n) (moved s) in ground arith
  handling-Executes n m (ok (some i)) s h p q =
      let a = settle_step (6 + n) s (ground arith) in
      let b = holding-Executes n i (moved s) in ground arith
  handling-Executes n m (throw e) s h p q =
      let a = settle_step (6 + n) s (ground arith) in
      let b = failing-Executes (3 + n) e (moved s) in ground arith
  handling-Executes n m (fault x) s h p q =
      let a = settle_step (6 + n) s (ground arith) in
      let b = settle_rest (6 + n) (moved s) in ground arith

  receiving-Executes :
      (n : ℕ) (r : Result (Unit {0})) (s : System Scope Sinks)
      → 1 ≤ s.owners
      → s.position ≡ receiving
      → (Connection.receive env (record { link = link s; message = new_message })).0 ≡ r
      → Executes (execute env naming parse sinks_handler now (receiver_of s)) (settle (8 + n) s)
  unfolding move execute attempt receive_message
  receiving-Executes n (ok _) s h p q =
      let a = settle_step (7 + n) s (ground arith) in
      let m =
        (Connection.receive env (record { link = link s; message = new_message })).1.message in
      let b = handling-Executes n m (handle_message env naming parse now m s.pool).0 (moved s) in
      ground arith
  receiving-Executes n (throw e) s h p q =
      let a = settle_step (7 + n) s (ground arith) in
      let b = failing-Executes (4 + n) e (moved s) in ground arith
  receiving-Executes n (fault x) s h p q =
      let a = settle_step (7 + n) s (ground arith) in
      let b = settle_rest (7 + n) (moved s) in ground arith

  -- The round is the one of `execute`.
  settle-Executes :
      (s : System Scope Sinks)
      → 1 ≤ s.owners
      → s.position ≡ receiving
      → Executes (execute env naming parse sinks_handler now (receiver_of s)) (settle 8 s)
  settle-Executes s h p =
      receiving-Executes 0
        (Connection.receive env (record { link = link s; message = new_message })).0 s h p refl

  -- A connection error ends the receiver's thread. Let the client library report an error where the
  -- thread waits for a message, while somebody owns the bus and no other thread comes between, and let
  -- the sinks return when they are told. Then within eight steps the sinks have been told of exactly
  -- that error, the task is cancelled, one call of `SP_receive` has been made and the pool is as it
  -- was; and the next step ends the thread.
  pub settle_broken :
      (s : System Scope Sinks)
      → let e = receive_error env (env.sp_receive (link s).history (link s).mailbox).ret in
        1 ≤ s.owners
        → s.position ≡ receiving
        → (link s).connected ≡ true
        → is_negative (env.sp_receive (link s).history (link s).mailbox).ret ≡ true
        → is_comm e ≡ true
        → (dispatching_of.map_all e s.bus.sinks).0 ≡ ok tt
        → let t = settle 8 s in
          (receiver_of t ≡ record {
            link = log_call (Call.receive (link s).mailbox) (link s);
            pool = s.pool;
            cancelled = true;
            handled = (dispatching_of.map_all e s.bus.sinks).1;
          })
          × (t.position ≡ ready)
          × ((moved t).position ≡ done)
  unfolding move
  settle_broken s owned here on bad comm told =
      let ended =
        execute_broken env naming parse sinks_handler now (receiver_of s) on bad comm told in
      let (same, rest) = settle-Executes s owned here in
      let after = same ∙ ap (λ r. r.1) ended in
      let position = rest ∙ ap (λ r. after_round r.0) ended in
      let off = ap (λ (r : Receiver Sinks). r.cancelled) after in
      (after, position, ground (arith, position, off))
