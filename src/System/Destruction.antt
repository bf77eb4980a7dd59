-- ===== src/System/Destruction.antt =====
-- The destructor of a bus on the receiver's own thread.
use rsb_spread_cpp.Base.{refl, ◌≡◌, Bool, true, false, Option, arith, Text, Exception, ok}
use rsb_spread_cpp.Spread.{History, Env}
use rsb_spread_cpp.Protocol.{Fragment}
use rsb_spread_cpp.GroupNameCache.{Naming}
use rsb_spread_cpp.Bus.{Dispatching, Bus}
use rsb_spread_cpp.Bus
use rsb_spread_cpp.Pool.{Pool}
use rsb_spread_cpp.System.{
  closes, releases, shares, moves, here, later, uses, Reach, Step, Stage, System, alive, cancelling,
  waking, waiting, disconnecting, closed, close_step, is_done, started,
}
use rsb_spread_cpp.System.Soundness.{IsSound, Reach-IsSound, is_closed, is_closing_down}
use rsb_spread_cpp.System.Safety.{started-IsSound}

module _ {Scope Sink Sinks : Type 0} (env : Env) (naming : Naming Scope)
    (parse : Text → Option Fragment) (serialize : Fragment → Option Text)
    (dispatching_of : Dispatching Scope Sink Sinks) (is_comm : Exception → Bool)
    (available : History → Bool) where
  close_step-at : (g : Stage) (s : System Scope Sinks) → (close_step env g s).position ≡ s.position
  unfolding close_step
  close_step-at alive s = refl
  close_step-at cancelling s = refl
  close_step-at waking s = refl
  close_step-at waiting s = refl
  close_step-at disconnecting s = refl
  close_step-at closed s = refl

  Step-is_closing_down :
      (s t : System Scope Sinks)
      → Step env naming parse serialize dispatching_of is_comm available s t
      → IsSound s
      → is_closing_down s.position ≡ true
      → is_closing_down t.position ≡ true
  Step-is_closing_down s t (uses u h on e) v c = ground (arith, v)
  Step-is_closing_down s t (shares h on e) v c = ground (arith, v)
  Step-is_closing_down s t (releases h on e) v c = ground (arith, v)
  Step-is_closing_down s t (closes h on e) v c = ground (arith, close_step-at s.stage s)
  Step-is_closing_down s t (moves now h e) v c = ground (arith, v)

  Reach-is_closing_down :
      {s t : System Scope Sinks}
      → Reach env naming parse serialize dispatching_of is_comm available s t
      → IsSound s
      → is_closing_down s.position ≡ true
      → is_closing_down t.position ≡ true
  Reach-is_closing_down here v c = c
  Reach-is_closing_down (later {t} {u} r st) v c =
      Step-is_closing_down t u st
        (Reach-IsSound env naming parse serialize dispatching_of is_comm available r v)
        (Reach-is_closing_down r v c)

  -- Let a bus be activated without an exception, and let its threads run until the receiver
  -- releases the last pointer to the bus, whose destructor then runs on the receiver's thread.
  -- Whatever the threads do from there, the receiver's task does not end and the bus is not
  -- closed: the destructor waits for the task that it runs in.
  pub closing_down_hangs :
      (b : Bus Sinks) (p : Pool) (s t : System Scope Sinks)
      → (Bus.activate env b).0 ≡ ok tt
      → Reach env naming parse serialize dispatching_of is_comm available
          (started (Bus.activate env b).1 p)
          s
      → is_closing_down s.position ≡ true
      → Reach env naming parse serialize dispatching_of is_comm available s t
      → (is_done t.position ≡ false) × (is_closed t.stage ≡ false)
  closing_down_hangs b p s t h r c more =
      let v =
        Reach-IsSound env naming parse serialize dispatching_of is_comm available r
          (started-IsSound env b p h) in
      let w = Reach-IsSound env naming parse serialize dispatching_of is_comm available more v in
      ground (arith, w, Reach-is_closing_down more v c)
