-- ===== src/System/Closing.antt =====
-- The destructor of a bus waits for the receiver, which does not wait for ever: the message that
-- it is sent wakes it up.
use rsb_spread_cpp.Base.{
  ℕ, zero, suc, ◌+◌, ◌<◌, ◌≡◌, ◌⊎◌, inl, inr, refl, sym, subst, Bool, true, false, Option, arith,
  Text, Exception, ok,
}
use rsb_spread_cpp.Spread.{History, Env}
use rsb_spread_cpp.Protocol.{Fragment}
use rsb_spread_cpp.GroupNameCache.{Naming}
use rsb_spread_cpp.Connection.{Link, interrupt_receive}
use rsb_spread_cpp.Bus.{Dispatching, handle_incoming, handle_error, cancel_receiver, Bus}
use rsb_spread_cpp.Bus
use rsb_spread_cpp.Pool.{Pool}
use rsb_spread_cpp.System.Safety.{started-IsSound}
use rsb_spread_cpp.System.{
  closes, releases, shares, moves, uses, Reach, Step, Position, Stage, System, alive, cancelling,
  waking, waiting, disconnecting, closed, ready, receiving, closing_down, done, terminated,
  handling, holding, dispatching, failing, reporting, unlocking, started, is_terminated, link,
  unlock, lock_bus, close_step, can_close, can_move, move,
}
use rsb_spread_cpp.System.Soundness.{
  IsSound, Reach-IsSound, Step-IsSound, past_cancel, is_closing_down,
}

abbrev is_receiving : {Scope : Type 0} → Position Scope → Bool
is_receiving receiving = true
is_receiving _ = false

abbrev is_waiting : Stage → Bool
is_waiting waiting = true
is_waiting _ = false

-- How many steps the receiver and the destructor take at most.
abbrev rounds_left : {Scope : Type 0} → Position Scope → ℕ
rounds_left receiving = 5
rounds_left (handling m) = 4
rounds_left (holding n) = 3
rounds_left (failing e) = 3
rounds_left ready = 2
rounds_left done = 1
rounds_left _ = 0

abbrev stages_left : Stage → ℕ
stages_left closed = 0
stages_left disconnecting = 1
stages_left waiting = 2
stages_left _ = 3

abbrev steps_left : {Scope Sinks : Type 0} → System Scope Sinks → ℕ
steps_left s = rounds_left s.position + stages_left s.stage

module _ {Scope Sink Sinks : Type 0} (env : Env) (naming : Naming Scope)
    (parse : Text → Option Fragment) (serialize : Fragment → Option Text)
    (dispatching_of : Dispatching Scope Sink Sinks) (is_comm : Exception → Bool)
    (available : History → Bool) where
  -- Every run of the threads from a state, in whatever order, closes the bus or ends the process
  -- within so many steps, and does not get stuck before.
  pub data Ends : ℕ → System Scope Sinks → Type 0 where
    has_closed : {n : ℕ} {s : System Scope Sinks} → s.stage ≡ closed → Ends n s
    has_terminated : {n : ℕ} {s : System Scope Sinks} → is_terminated s.position ≡ true → Ends n s
    goes_on :
        {n : ℕ} {s t : System Scope Sinks}
        → Step env naming parse serialize dispatching_of is_comm available s t
        → ((u : System Scope Sinks)
            → Step env naming parse serialize dispatching_of is_comm available s u
            → Ends n u)
        → Ends (suc n) s

  -- The receiver is being waited for by another thread, and what wakes it up has been sent.
  record IsClosing (s : System Scope Sinks) : Type 0 where
    sound : IsSound s
    begun : past_cancel s.stage ≡ true
    elsewhere : is_closing_down s.position ≡ false
    woken :
        is_waiting s.stage ≡ true
        → is_receiving s.position ≡ true
        → available (link s).history ≡ true

  close_step-IsClosing :
      (wakes : (l : Link)
        → l.connected ≡ true
        → available (interrupt_receive env l).1.history ≡ true)
      (g : Stage) (s : System Scope Sinks)
      → s.stage ≡ g
      → IsClosing s
      → IsSound (close_step env g s)
      → can_close g s.position ≡ true
      → IsClosing (close_step env g s) × steps_left (close_step env g s) < steps_left s
  unfolding close_step cancel_receiver
  close_step-IsClosing wakes alive s e c v h = cc
  close_step-IsClosing wakes cancelling s e c v h = ground (arith, c)
  close_step-IsClosing wakes waking s e c v h =
      ground (arith, c, wakes (link s) (ground (arith, c.sound)))
  close_step-IsClosing wakes waiting s e c v h = ground (arith, c)
  close_step-IsClosing wakes disconnecting s e c v h = ground (arith, c)
  close_step-IsClosing wakes closed s e c v h = cc

  move-IsClosing :
      (now : ℕ) (p : Position Scope) (s : System Scope Sinks)
      → s.position ≡ p
      → IsClosing s
      → IsSound (move env naming parse serialize dispatching_of is_comm now p s)
      → can_move available p (link s).history ≡ true
      → IsClosing (move env naming parse serialize dispatching_of is_comm now p s)
        × steps_left (move env naming parse serialize dispatching_of is_comm now p s) < steps_left s
  unfolding move lock_bus unlock handle_incoming handle_error
  move-IsClosing now ready s e c v h = ground (arith, c, c.sound)
  move-IsClosing now receiving s e c v h = ground (arith, c, c.sound)
  move-IsClosing now closing_down s e c v h = cc
  move-IsClosing now done s e c v h = cc
  move-IsClosing now terminated s e c v h = cc
  move-IsClosing now (handling m) s e c v h = ground (arith, c, c.sound)
  move-IsClosing now (holding n) s e c v h = ground (arith, c, c.sound)
  move-IsClosing now (dispatching n) s e c v h = ground (arith, c, c.sound)
  move-IsClosing now (failing x) s e c v h = ground (arith, c, c.sound)
  move-IsClosing now (reporting x) s e c v h = ground (arith, c, c.sound)
  move-IsClosing now (unlocking n) s e c v h = ground (arith, c, c.sound)

  owned-IsClosing : (s : System Scope Sinks) → IsClosing s → s.owners ≡ 0
  owned-IsClosing s c = ground (arith, c, c.sound)

  -- A thread that can take a step, unless it is over.
  abbrev Progress : System Scope Sinks → Type 0
  Progress s =
      (s.stage ≡ closed)
      ⊎ (is_terminated s.position ≡ true)
      ⊎ ((is_terminated s.position ≡ false)
          × ((can_close s.stage s.position ≡ true)
              ⊎ (can_move available s.position (link s).history ≡ true)))

  waiting-Progress :
      (p : Position Scope) (s : System Scope Sinks)
      → s.position ≡ p
      → s.stage ≡ waiting
      → IsClosing s
      → Progress s
  waiting-Progress ready s e g c = ground (arith, c, c.sound)
  waiting-Progress receiving s e g c = ground (arith, c, c.sound)
  waiting-Progress closing_down s e g c = ground (arith, c, c.sound)
  waiting-Progress done s e g c = ground (arith, c, c.sound)
  waiting-Progress terminated s e g c = ground (arith, c, c.sound)
  waiting-Progress (handling m) s e g c = ground (arith, c, c.sound)
  waiting-Progress (holding n) s e g c = ground (arith, c, c.sound)
  waiting-Progress (dispatching n) s e g c = ground (arith, c, c.sound)
  waiting-Progress (failing x) s e g c = ground (arith, c, c.sound)
  waiting-Progress (reporting x) s e g c = ground (arith, c, c.sound)
  waiting-Progress (unlocking n) s e g c = ground (arith, c, c.sound)

  IsClosing-Progress : (g : Stage) (s : System Scope Sinks) → s.stage ≡ g → IsClosing s → Progress s
  IsClosing-Progress alive s e c = ground (arith, c, c.sound)
  IsClosing-Progress cancelling s e c = ground (arith, c, c.sound)
  IsClosing-Progress waking s e c = ground (arith, c, c.sound)
  IsClosing-Progress waiting s e c = waiting-Progress s.position s refl e c
  IsClosing-Progress disconnecting s e c = ground (arith, c, c.sound)
  IsClosing-Progress closed s e c = inl e

  module _
      (wakes : (l : Link)
        → l.connected ≡ true
        → available (interrupt_receive env l).1.history ≡ true) where
    Step-IsClosing :
        (s t : System Scope Sinks)
        → Step env naming parse serialize dispatching_of is_comm available s t
        → IsClosing s
        → IsClosing t × steps_left t < steps_left s
    Step-IsClosing s t (uses u h on e) c = ground (arith, owned-IsClosing s c)
    Step-IsClosing s t (shares h on e) c = ground (arith, owned-IsClosing s c)
    Step-IsClosing s t (releases h on e) c = ground (arith, owned-IsClosing s c)
    Step-IsClosing s t (closes h on e) c =
        subst (λ u. IsClosing u × steps_left u < steps_left s) (sym e)
          (close_step-IsClosing wakes s.stage s refl c
            (Step-IsSound env naming parse serialize dispatching_of is_comm available s
              (close_step env s.stage s) (closes h on refl) c.sound)
            h)
    Step-IsClosing s t (moves now h e) c =
        subst (λ u. IsClosing u × steps_left u < steps_left s) (sym e)
          (move-IsClosing now s.position s refl c
            (Step-IsSound env naming parse serialize dispatching_of is_comm available s
              (move env naming parse serialize dispatching_of is_comm now s.position s)
              (moves now h refl) c.sound)
            h)

    IsClosing-Ends : (n : ℕ) (s : System Scope Sinks) → steps_left s < n → IsClosing s → Ends n s
    IsClosing-Ends zero s h c = absurd (omega arith)
    IsClosing-Ends (suc n) s h c =
        let rest =
          λ (u : System Scope Sinks)
              (st : Step env naming parse serialize dispatching_of is_comm available s u).
            let (d, k) = Step-IsClosing s u st c in IsClosing-Ends n u (omega arith) d in
        elim (IsClosing-Progress s.stage s refl c) [
          | inl e ↦ has_closed e
          | inr (inl e) ↦ has_terminated e
          | inr (inr (on, inl e)) ↦ goes_on (closes e on refl) rest
          | inr (inr (on, inr e)) ↦ goes_on (moves 0 e refl) rest
        ]

    -- Let a bus be activated without an exception, and let its threads run from there in any
    -- order until the destructor has cancelled the receiver, on another thread than the
    -- receiver's. Then every run from there closes the bus, or ends the process, within nine
    -- steps of the threads, and none gets stuck: the receiver leaves the wait for a message and
    -- its task ends. This asks that `SP_receive` returns after `interruptReceive` on an active
    -- connection.
    pub Reach-Ends :
        (b : Bus Sinks) (p : Pool) (s : System Scope Sinks)
        → (Bus.activate env b).0 ≡ ok tt
        → Reach env naming parse serialize dispatching_of is_comm available
            (started (Bus.activate env b).1 p)
            s
        → s.stage ≡ waking
        → is_closing_down s.position ≡ false
        → Ends 9 s
    Reach-Ends b p s h r at_waking elsewhere =
        let v =
          Reach-IsSound env naming parse serialize dispatching_of is_comm available r
            (started-IsSound env b p h) in
        IsClosing-Ends 9 s (ground (arith, at_waking)) (record {
          sound = v;
          begun = ground arith;
          elsewhere = elsewhere;
          woken = λ w. ground (arith, at_waking);
        })
