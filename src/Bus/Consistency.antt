-- ===== src/Bus/Consistency.antt =====
-- Whatever happens to a bus, it agrees with its connection.
use rsb_spread_cpp.Base.{
  ℕ, ◌≡◌, refl, ◌∙◌, Option, none, some, List, [], ◌∷◌, arith, length, Text, Text_discrete, lookup,
  Exception, Result, ok, throw, fault, Action, ◌>>◌,
}
use rsb_spread_cpp.Spread.{Env}
use rsb_spread_cpp.GroupNameCache.{Naming, scope_to_group}
use rsb_spread_cpp.Protocol.{Fragment}
use rsb_spread_cpp.Message.{Message, set_data, set_qos, new_message}
use rsb_spread_cpp.Notifications.{Transported, Outgoing}
use rsb_spread_cpp.Connection.{Link, new_connection, send}
use rsb_spread_cpp.Connection
use rsb_spread_cpp.Connection.Inactive.{activate-Activates}
use rsb_spread_cpp.Connection.Sending.{send-Sends}
use rsb_spread_cpp.Membership.{Membership, join_at, leave_at}
use rsb_spread_cpp.Membership
use rsb_spread_cpp.Bus.{
  Dispatching, Bus, connection, activate, deactivate, destroy, send_fragments, send_notification,
  add_sink, remove_sink, handle_outgoing, handle_incoming, handle_error, new_bus, numbered,
  send_serialized, add_groups,
}
use rsb_spread_cpp.Bus.Lifecycle.{IsConsistent, deactivate-Deactivates}

-- The connection is to the same daemon.
abbrev pub SameDaemon : Link → Link → Type 0
SameDaemon l k = (k.host ≡ l.host) × (k.port ≡ l.port)

-- A call that leaves the state of the connection and its daemon as they were.
abbrev pub Keeps : {A : Type 0} → Link → Result A × Link → Type 0
Keeps l r = (r.1.connected ≡ l.connected) × SameDaemon l r.1

abbrev pub KeepsLink : {A : Type 0} → Membership → Result A × Membership → Type 0
KeepsLink s r = Keeps s.link (r.0, r.1.link)

pub join_at-KeepsLink :
    (env : Env) (g : Text) (o : Option ℕ) (s : Membership) → KeepsLink s (join_at env g o s)
unfolding join_at Connection.join
join_at-KeepsLink env g none s = ground arith
join_at-KeepsLink env g (some n) s = ground arith

pub leave_at-KeepsLink :
    (env : Env) (g : Text) (o : Option ℕ) (s : Membership) → KeepsLink s (leave_at env g o s)
unfolding leave_at Membership.last_use Connection.leave
leave_at-KeepsLink env g none s = ground arith
leave_at-KeepsLink env g (some n) s = ground arith

send-Keeps : (env : Env) (m : Message) (l : Link) → Keeps l (send env m l)
send-Keeps env m l = ground (arith, send-Sends env l m)

then_Keeps :
    (m : Action Link (Unit {0})) (k : Action Link (Unit {0})) (l : Link)
    → Keeps l (m l)
    → ((j : Link) → Keeps j (k j))
    → Keeps l ((m >> k) l)
then_Keeps m k l h keeps = after (m l) h
  where
    after :
        (r : Result (Unit {0}) × Link)
        → Keeps l r
        → Keeps {A = Unit {0}} l
            (elim r.0 [ ok _ ↦ k r.1 | throw e ↦ (throw e, r.1) | fault x ↦ (fault x, r.1) ])
    after (ok _, j) h = let k = keeps j in (k.0 ∙ h.0, (k.1.0 ∙ h.1.0, k.1.1 ∙ h.1.1))
    after (throw e, j) h = h
    after (fault x, j) h = h

send_serialized-Keeps :
    (env : Env) (serialize : Fragment → Option Text) (m : Message) (o : Option Text) (l : Link)
    → Keeps l (send_serialized env serialize m o l)
send_serialized-Keeps env serialize m none l = (refl, (refl, refl))
send_serialized-Keeps env serialize m (some d) l = send-Keeps env (set_data d m) l

send_fragments-Keeps :
    (env : Env) (serialize : Fragment → Option Text) (n : ℕ) (m : Message) (fs : List Fragment)
    (l : Link)
    → Keeps l (send_fragments env serialize n m fs l)
unfolding send_fragments
send_fragments-Keeps env serialize n m [] l = (refl, (refl, refl))
send_fragments-Keeps env serialize n m (f ∷ fs) l =
    then_Keeps (send_serialized env serialize m (serialize (numbered env serialize n f)))
      (send_fragments env serialize n m fs) l
      (send_serialized-Keeps env serialize m (serialize (numbered env serialize n f)) l)
      (send_fragments-Keeps env serialize n m fs)

pub send_notification-Keeps :
    {Scope : Type 0} (env : Env) (serialize : Fragment → Option Text) (o : Outgoing Scope)
    (l : Link)
    → Keeps l (send_notification env serialize o l)
unfolding send_notification
send_notification-Keeps env serialize o l =
    after (add_groups env o.groups (set_qos o.qos new_message))
  where
    after :
        (r : Result (Unit {0}) × Message)
        → Keeps {A = Unit {0}} l (elim r.0 [
          | ok _ ↦ send_fragments env serialize (length o.fragments) r.1 o.fragments l
          | throw e ↦ (throw e, l)
          | fault x ↦ (fault x, l)
        ])
    after (ok _, m) = send_fragments-Keeps env serialize (length o.fragments) m o.fragments l
    after (throw e, m) = (refl, (refl, refl))
    after (fault x, m) = (refl, (refl, refl))

-- What can happen to a bus.
pub data BusOperation (Scope Sink : Type 0) : Type 0 where
  activates deactivates destroys : BusOperation Scope Sink
  adds removes : Scope → Sink → BusOperation Scope Sink
  sends : Outgoing Scope → BusOperation Scope Sink
  dispatches : Transported Scope → BusOperation Scope Sink
  reports : Exception → BusOperation Scope Sink

module _ {Scope Sink Sinks : Type 0} (env : Env) (naming : Naming Scope)
    (dispatching : Dispatching Scope Sink Sinks) (serialize : Fragment → Option Text) where
  -- The bus behind an operation, whether it returned or threw.
  unfoldable pub step : BusOperation Scope Sink → Bus Sinks → Bus Sinks
  step activates b = (activate env b).1
  step deactivates b = (deactivate env b).1
  step destroys b = (destroy env b).1
  step (adds scope sink) b = (add_sink env naming dispatching scope sink b).1
  step (removes scope sink) b = (remove_sink env naming dispatching scope sink b).1
  step (sends o) b = (handle_outgoing env naming dispatching serialize o b).1
  step (dispatches n) b = (handle_incoming env naming dispatching n b).1
  step (reports e) b = (handle_error env naming dispatching e b).1

  unfoldable pub run : List (BusOperation Scope Sink) → Bus Sinks → Bus Sinks
  run [] b = b
  run (o ∷ os) b = run os (step o b)

  pub step-IsConsistent :
      (o : BusOperation Scope Sink) (b : Bus Sinks) → IsConsistent b → IsConsistent (step o b)
  unfolding step activate destroy add_sink remove_sink handle_outgoing handle_incoming handle_error
      Membership.join Membership.leave
  step-IsConsistent activates b v = record {
    agrees = ground (arith, v.agrees, activate-Activates env (connection b));
    receives = ground (arith, v.receives, activate-Activates env (connection b));
  }
  step-IsConsistent deactivates b v = record {
    agrees = ground (arith, deactivate-Deactivates env b v, v.agrees);
    receives = ground (arith, deactivate-Deactivates env b v, v.receives);
  }
  step-IsConsistent destroys b v = record {
    agrees = ground (arith, deactivate-Deactivates env b v, v.agrees);
    receives = ground (arith, deactivate-Deactivates env b v, v.receives);
  }
  step-IsConsistent (adds scope sink) b v = record {
    agrees = ground (
      arith,
      v.agrees,
      join_at-KeepsLink env (scope_to_group env naming scope)
          (lookup Text_discrete (scope_to_group env naming scope) b.memberships.groups)
          b.memberships,
    );
    receives = ground (arith, v.receives);
  }
  step-IsConsistent (removes scope sink) b v = record {
    agrees = ground (
      arith,
      v.agrees,
      leave_at-KeepsLink env (scope_to_group env naming scope)
          (lookup Text_discrete (scope_to_group env naming scope) b.memberships.groups)
          b.memberships,
    );
    receives = ground (arith, v.receives);
  }
  step-IsConsistent (sends o) b v = record {
    agrees = ground (arith, v.agrees, send_notification-Keeps env serialize o (connection b));
    receives = ground (arith, v.receives);
  }
  step-IsConsistent (dispatches n) b v = record { agrees = v.agrees; receives = v.receives }
  step-IsConsistent (reports e) b v = record { agrees = v.agrees; receives = v.receives }

-- Whatever happens to a new bus, and whatever the daemon and the sinks answer, the bus is
-- active exactly while its connection is, and an active bus has a receiver.
pub run-new_bus-IsConsistent :
    {Scope Sink Sinks : Type 0} (env : Env) (naming : Naming Scope)
    (dispatching : Dispatching Scope Sink Sinks) (serialize : Fragment → Option Text)
    (os : List (BusOperation Scope Sink)) (host : Text) (port : ℕ)
    → IsConsistent (
        run env naming dispatching serialize os (
          new_bus env naming dispatching
            (record { connection = new_connection env host port; history = [] })))
unfolding run new_bus new_connection
run-new_bus-IsConsistent env naming dispatching serialize os host port =
    runs os _ (record { agrees = refl; receives = λ e. absurd (cc) })
  where
    runs :
        (os : List (BusOperation _ _)) (b : Bus _)
        → IsConsistent b
        → IsConsistent (run env naming dispatching serialize os b)
    runs [] b v = v
    runs (o ∷ os) b v = runs os _ (step-IsConsistent env naming dispatching serialize o b v)
