-- ===== src/System/Safety.antt =====
-- Nobody uses a bus that is gone, and a bus disconnects only when nobody waits on its connection.
use rsb_spread_cpp.Base.{Bool, ◌≤◌, ◌≡◌, true, false, Option, arith, Text, Exception, ok}
use rsb_spread_cpp.Spread.{History, Env}
use rsb_spread_cpp.Protocol.{Fragment}
use rsb_spread_cpp.GroupNameCache.{Naming}
use rsb_spread_cpp.Connection.{interrupt_receive}
use rsb_spread_cpp.Connection
use rsb_spread_cpp.Pool.{Pool}
use rsb_spread_cpp.Bus.{Dispatching, Bus, cancel_receiver}
use rsb_spread_cpp.Bus
use rsb_spread_cpp.System.{
  Reach, System, alive, cancelling, waking, disconnecting, is_done, locks, link, started,
}
use rsb_spread_cpp.System.Soundness.{IsSound, Reach-IsSound}

-- Who may rely on what.
pub record IsGuarded {Scope Sinks : Type 0} (s : System Scope Sinks) : Type 0 where
  -- An owner finds the bus undestroyed and connected.
  pub owned : 1 ≤ s.owners → (s.stage ≡ alive) × ((link s).connected ≡ true)
  -- So does the receiver while it holds the bus.
  pub locked : locks s.position ≡ true → (s.stage ≡ alive) × ((link s).connected ≡ true)
  -- The receiver's connection stays until its task has ended.
  pub served : is_done s.position ≡ false → (link s).connected ≡ true
  -- The calls of the destructor return.
  pub cancels : s.stage ≡ cancelling → (cancel_receiver s.bus).0 ≡ ok tt
  pub wakes : (env : Env) → s.stage ≡ waking → (interrupt_receive env (link s)).0 ≡ ok tt
  pub disconnects : s.stage ≡ disconnecting → (Connection.deactivate (link s)).0 ≡ ok tt

IsSound-IsGuarded : {Scope Sinks : Type 0} (s : System Scope Sinks) → IsSound s → IsGuarded s
unfolding cancel_receiver interrupt_receive Connection.deactivate
IsSound-IsGuarded s v = record {
  owned = λ h. ground (arith, v);
  locked = λ h. ground (arith, v);
  served = λ h. ground (arith, v);
  cancels = λ h. ground (arith, v);
  wakes = λ env h. ground (arith, v);
  disconnects = λ h. ground (arith, v);
}

pub started-IsSound :
    {Scope Sinks : Type 0} (env : Env) (b : Bus Sinks) (p : Pool)
    → (Bus.activate env b).0 ≡ ok tt
    → IsSound (started {Scope = Scope} (Bus.activate env b).1 p)
unfolding Bus.activate Connection.activate
started-IsSound env b p h = ground arith

module _ {Scope Sink Sinks : Type 0} (env : Env) (naming : Naming Scope)
    (parse : Text → Option Fragment) (serialize : Fragment → Option Text)
    (dispatching_of : Dispatching Scope Sink Sinks) (is_comm : Exception → Bool)
    (available : History → Bool) where
  -- Let a bus be activated without an exception, and let its owners and its receiver run from
  -- there, in any order. Then an owner finds the bus undestroyed and connected, and so does the
  -- receiver while it holds the bus; the connection stays until the receiver's task has ended;
  -- and none of the calls that the destructor makes throws or faults.
  pub Reach-IsGuarded :
      (b : Bus Sinks) (p : Pool) (s : System Scope Sinks)
      → (Bus.activate env b).0 ≡ ok tt
      → Reach env naming parse serialize dispatching_of is_comm available
          (started (Bus.activate env b).1 p)
          s
      → IsGuarded s
  Reach-IsGuarded b p s h r = IsSound-IsGuarded s (
      Reach-IsSound env naming parse serialize dispatching_of is_comm available r
        (started-IsSound env b p h))
