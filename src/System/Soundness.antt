-- ===== src/System/Soundness.antt =====
-- What holds in every state that the threads can reach.
use rsb_spread_cpp.Message.{new_message}
use rsb_spread_cpp.Base.{
  refl, sym, subst, ℕ, ◌≤◌, ◌≡◌, ◌≢◌, ◌⊎◌, Bool, true, false, Option, none, arith, Text,
  Text_discrete, lookup, Exception,
}
use rsb_spread_cpp.Spread.{History, Env}
use rsb_spread_cpp.Protocol.{Fragment}
use rsb_spread_cpp.GroupNameCache.{Naming, scope_to_group}
use rsb_spread_cpp.Connection
use rsb_spread_cpp.Connection.{Reception, interrupt_receive}
use rsb_spread_cpp.Connection.Sessions.{receive_regular-link}
use rsb_spread_cpp.Membership
use rsb_spread_cpp.Bus.{
  Dispatching, Bus, connection, cancel_receiver, add_sink, remove_sink, handle_outgoing,
  handle_incoming, handle_error,
}
use rsb_spread_cpp.Bus.Consistency.{join_at-KeepsLink, leave_at-KeepsLink, send_notification-Keeps}
use rsb_spread_cpp.System.{
  closes, releases, shares, moves, here, later, uses, Reach, Step, Position, Stage, System, Use,
  adds, removes, sends, alive, cancelling, waking, waiting, disconnecting, closed, ready, receiving,
  closing_down, done, terminated, handling, holding, dispatching, failing, reporting, unlocking,
  is_cancelled, is_done, is_terminated, locks, link, release, unlock, lock_bus, close_step,
  can_close, move, use_bus,
}

abbrev pub is_alive : Stage → Bool
is_alive alive = true
is_alive _ = false

-- The receiver has been cancelled; and it has been waited for.
abbrev pub past_cancel : Stage → Bool
past_cancel alive = false
past_cancel cancelling = false
past_cancel _ = true

abbrev pub past_wait : Stage → Bool
past_wait disconnecting = true
past_wait closed = true
past_wait _ = false

abbrev pub is_closed : Stage → Bool
is_closed closed = true
is_closed _ = false

abbrev pub is_closing_down : {Scope : Type 0} → Position Scope → Bool
is_closing_down closing_down = true
is_closing_down _ = false

-- The bus lives exactly as long as somebody holds it, or the process has ended; its connection is
-- active until the destructor disconnects it, which it does only after the receiver has ended.
pub record IsSound {Scope Sinks : Type 0} (s : System Scope Sinks) : Type 0 where
  pub connected : is_closed s.stage ≡ false → (link s).connected ≡ true
  pub has_receiver : s.bus.receiver ≢ none
  pub held :
      is_alive s.stage ≡ true
      → (1 ≤ s.owners) ⊎ (locks s.position ≡ true) ⊎ (is_terminated s.position ≡ true)
  pub released : is_alive s.stage ≡ false → (s.owners ≡ 0) × (locks s.position ≡ false)
  pub stopped : past_cancel s.stage ≡ true → is_cancelled s.bus.receiver ≡ true
  pub ended : past_wait s.stage ≡ true → is_done s.position ≡ true
  pub itself : is_closing_down s.position ≡ true → is_alive s.stage ≡ false
  pub stays : is_done s.position ≡ true → is_cancelled s.bus.receiver ≡ true

module _ {Scope Sink Sinks : Type 0} (env : Env) (naming : Naming Scope)
    (parse : Text → Option Fragment) (serialize : Fragment → Option Text)
    (dispatching_of : Dispatching Scope Sink Sinks) (is_comm : Exception → Bool) where
  -- What the steps of the owners and of the handlers leave alone.
  record Spares (b c : Bus Sinks) : Type 0 where
    same_state : (connection c).connected ≡ (connection b).connected
    same_receiver : c.receiver ≡ b.receiver

  use_bus-Spares :
      (u : Use Scope Sink) (b : Bus Sinks)
      → Spares b (use_bus env naming parse serialize dispatching_of is_comm u b)
  unfolding use_bus add_sink remove_sink handle_outgoing Membership.join Membership.leave
  use_bus-Spares (adds scope sink) b = record {
    same_state = ground (
      arith,
      join_at-KeepsLink env (scope_to_group env naming scope)
          (lookup Text_discrete (scope_to_group env naming scope) b.memberships.groups)
          b.memberships,
    );
    same_receiver = ground arith;
  }
  use_bus-Spares (removes scope sink) b = record {
    same_state = ground (
      arith,
      leave_at-KeepsLink env (scope_to_group env naming scope)
          (lookup Text_discrete (scope_to_group env naming scope) b.memberships.groups)
          b.memberships,
    );
    same_receiver = ground arith;
  }
  use_bus-Spares (sends o) b = record {
    same_state = ground (arith, send_notification-Keeps env serialize o (connection b));
    same_receiver = ground arith;
  }

  receive_keeps : (r : Reception) → (Connection.receive env r).1.link.connected ≡ r.link.connected
  unfolding Connection.receive
  receive_keeps r = grind (arith, receive_regular-link)

  uses-IsSound :
      (u : Use Scope Sink) (s : System Scope Sinks)
      → IsSound s
      → 1 ≤ s.owners
      → IsSound
          (record s { bus = use_bus env naming parse serialize dispatching_of is_comm u s.bus })
  uses-IsSound u s v h =
      let k = use_bus-Spares u s.bus in
      record {
        connected = ground (arith, v.connected, k.same_state);
        has_receiver = ground (arith, v.has_receiver, k.same_receiver);
        held = v.held;
        released = v.released;
        stopped = ground (arith, v.stopped, k.same_receiver);
        ended = v.ended;
        itself = v.itself;
        stays = ground (arith, v.stays, k.same_receiver);
      }

  releases-IsSound : (s : System Scope Sinks) → IsSound s → 1 ≤ s.owners → IsSound (release s)
  unfolding release
  releases-IsSound s v h = ground (arith, v)

  closes-IsSound :
      (g : Stage) (s : System Scope Sinks)
      → s.stage ≡ g
      → IsSound s
      → can_close g s.position ≡ true
      → IsSound (close_step env g s)
  unfolding close_step cancel_receiver interrupt_receive Connection.deactivate
  closes-IsSound alive s e v h = cc
  closes-IsSound cancelling s e v h = ground (arith, v)
  closes-IsSound waking s e v h = ground (arith, v)
  closes-IsSound waiting s e v h = ground (arith, v)
  closes-IsSound disconnecting s e v h = ground (arith, v)
  closes-IsSound closed s e v h = cc

  moves-IsSound :
      (now : ℕ) (p : Position Scope) (s : System Scope Sinks)
      → s.position ≡ p
      → IsSound s
      → IsSound (move env naming parse serialize dispatching_of is_comm now p s)
  unfolding move lock_bus unlock handle_incoming handle_error
  moves-IsSound now ready s e v = ground (arith, v)
  moves-IsSound now receiving s e v =
      ground (arith, v, receive_keeps (record { link = link s; message = new_message }))
  moves-IsSound now closing_down s e v = v
  moves-IsSound now done s e v = v
  moves-IsSound now terminated s e v = v
  moves-IsSound now (handling m) s e v = ground (arith, v)
  moves-IsSound now (holding n) s e v = ground (arith, v)
  moves-IsSound now (dispatching n) s e v = ground (arith, v)
  moves-IsSound now (failing x) s e v = ground (arith, v)
  moves-IsSound now (reporting x) s e v = ground (arith, v)
  moves-IsSound now (unlocking n) s e v = ground (arith, v)

  pub Step-IsSound :
      (available : History → Bool) (s t : System Scope Sinks)
      → Step env naming parse serialize dispatching_of is_comm available s t
      → IsSound s
      → IsSound t
  Step-IsSound available s t (uses u h on e) v = subst IsSound (sym e) (uses-IsSound u s v h)
  Step-IsSound available s t (shares h on e) v = ground (arith, v)
  Step-IsSound available s t (releases h on e) v = subst IsSound (sym e) (releases-IsSound s v h)
  Step-IsSound available s t (closes h on e) v =
      subst IsSound (sym e) (closes-IsSound s.stage s refl v h)
  Step-IsSound available s t (moves now h e) v =
      subst IsSound (sym e) (moves-IsSound now s.position s refl v)

  pub Reach-IsSound :
      (available : History → Bool) {s t : System Scope Sinks}
      → Reach env naming parse serialize dispatching_of is_comm available s t
      → IsSound s
      → IsSound t
  Reach-IsSound available here v = v
  Reach-IsSound available (later {t} {u} r st) v =
      Step-IsSound available t u st (Reach-IsSound available r v)
