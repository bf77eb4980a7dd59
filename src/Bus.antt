-- ===== src/Bus.antt =====
-- src/rsb/transport/spread/BusImpl.{h,cpp}: ties a connection, its group memberships, the
-- receiver and the local sinks together. The mutex makes what it guards atomic. The dispatcher of
-- the sinks comes from the core library.
pub mod Lifecycle
pub mod Consistency
pub mod Daemons
pub mod Outbound
pub mod Addressing
pub mod Reactivation
use rsb_spread_cpp.Base.{
  ◌++◌, pos, ◌>>=◌, ◌>>◌, ℕ, ◌%◌, ◌^◌, Bool, true, false, not, Option, none, some, List, [], ◌∷◌,
  if◌then◌else◌, length, Text, bytes, Exception, illegal_state, protocol_error, null_dereferenced,
  ok, throw, fault, Action, ◌>>◌, pure, raise, modify, zoom,
}
use rsb_spread_cpp.Spread.{Env}
use rsb_spread_cpp.Protocol.{Fragment}
use rsb_spread_cpp.Message.{Message, new_message, set_qos, set_data, add_group}
use rsb_spread_cpp.Notifications.{Transported, Outgoing}
use rsb_spread_cpp.GroupNameCache.{Naming, scope_to_group}
use rsb_spread_cpp.Connection.{Link, send, interrupt_receive, get_transport_url}
use rsb_spread_cpp.Connection
use rsb_spread_cpp.Membership.{Membership, new_membership}
use rsb_spread_cpp.Membership
use rsb_spread_cpp.Pool.{TaskState, running, finished}

-- The dispatcher of the sinks, with what it holds.
pub record Dispatching (Scope Sink Sinks : Type 0) : Type 0 where
  pub no_sinks : Sinks
  pub add_sink : Scope → Sink → Sinks → Sinks
  pub remove_sink : Scope → Sink → Sinks → Sinks
  -- Calls `handleNotification` on the sinks of a scope.
  pub map_sinks : Scope → Transported Scope → Action Sinks (Unit {0})
  -- Calls `handleError` on all sinks.
  pub map_all : Exception → Action Sinks (Unit {0})

-- The connection is the one that the membership manager holds, too.
pub record Bus (Sinks : Type 0) : Type 0 where
  pub active : Bool
  pub memberships : Membership
  pub receiver : Option TaskState
  pub sinks : Sinks

abbrev pub connection : {Sinks : Type 0} → Bus Sinks → Link
connection b = b.memberships.link

module _ {Sinks : Type 0} where
  abbrev pub put_connection : Bus Sinks → Link → Bus Sinks
  put_connection b l = record b { memberships = record b.memberships { link = l } }

  abbrev put_memberships : Bus Sinks → Membership → Bus Sinks
  put_memberships b m = record b { memberships = m }

  abbrev put_sinks : Bus Sinks → Sinks → Bus Sinks
  put_sinks b s = record b { sinks = s }

  abbrev pub on_connection : {A : Type 0} → Action Link A → Action (Bus Sinks) A
  on_connection = zoom connection put_connection

  unfoldable pub activate : Env → Action (Bus Sinks) (Unit {0})
  activate env = do
    λ b. (if b.active then throw (illegal_state (bytes "Bus is already active")) else ok tt, b)
    on_connection (Connection.activate env)
    modify (λ b. record b { receiver = some running; active = true })

  -- `cancel` on the receiver.
  unfoldable pub cancel_receiver : Action (Bus Sinks) (Unit {0})
  cancel_receiver b = elim b.receiver [
    | none ↦ (fault null_dereferenced, b)
    | some _ ↦ (ok tt, record b { receiver = some finished })
  ]

  -- The wait for the receiver's end has no effect of its own.
  unfoldable pub deactivate : Env → Action (Bus Sinks) (Unit {0})
  unfolding cancel_receiver
  deactivate env = do
    λ b. (if b.active then ok tt else throw (illegal_state (bytes "Bus is not active")), b)
    cancel_receiver
    on_connection (interrupt_receive env)
    on_connection Connection.deactivate
    modify (λ b. record b { active = false })

  -- The destructor.
  unfoldable pub destroy : Env → Action (Bus Sinks) (Unit {0})
  unfolding deactivate
  destroy env b = if b.active then deactivate env b else (ok tt, b)

  abbrev pub transport_url : Env → Bus Sinks → Text
  transport_url env b = get_transport_url env (connection b).connection

-- The dispatcher says how many sinks it has.
unfoldable pub print_contents : {Sinks : Type 0} → Env → (Sinks → ℕ) → Bus Sinks → Text
print_contents env size b =
    bytes "connection = "
    ++ Connection.print_contents (connection b).connection
    ++ bytes ", state = "
    ++ bytes (if b.active then "" else "not ")
    ++ bytes "active, sinks = "
    ++ env.decimal (pos (size b.sinks))

-- The loop that adds the groups.
unfoldable pub add_groups : Env → List Text → Action Message (Unit {0})
add_groups env [] = pure tt
add_groups env (g ∷ gs) = add_group env g >> add_groups env gs

-- `serialize` is `SerializeToString`, which may fail.
module _ (env : Env) (serialize : Fragment → Option Text) where
  abbrev pub numbered : ℕ → Fragment → Fragment
  numbered n f = record f { num_data_parts = n % 2 ^ 32 }

  abbrev pub send_serialized : Message → Option Text → Action Link (Unit {0})
  send_serialized m none = raise (protocol_error (bytes "Failed to write notification to stream"))
  send_serialized m (some d) = send env (set_data d m)

  -- The loop that sends so many fragments; each is written into the message before it is sent.
  unfoldable pub send_fragments : ℕ → Message → List Fragment → Action Link (Unit {0})
  send_fragments n m [] = pure tt
  send_fragments n m (f ∷ fs) =
      send_serialized m (serialize (numbered n f)) >> send_fragments n m fs

  unfoldable pub send_notification : {Scope : Type 0} → Outgoing Scope → Action Link (Unit {0})
  unfolding send_fragments add_groups
  send_notification o l =
      let (r, m) = add_groups env o.groups (set_qos o.qos new_message) in
      elim r [
        | ok _ ↦ send_fragments (length o.fragments) m o.fragments l
        | throw e ↦ (throw e, l)
        | fault x ↦ (fault x, l)
      ]

module _ {Scope Sink Sinks : Type 0} (env : Env) (naming : Naming Scope)
    (dispatching : Dispatching Scope Sink Sinks) where
  unfoldable pub new_bus : Link → Bus Sinks
  new_bus l = record {
    active = false;
    memberships = new_membership l;
    receiver = none;
    sinks = dispatching.no_sinks;
  }

  unfoldable pub add_sink : Scope → Sink → Action (Bus Sinks) (Unit {0})
  add_sink scope sink = do
    zoom (λ b. b.memberships) put_memberships
        (Membership.join env (scope_to_group env naming scope))
    modify (λ b. record b { sinks = dispatching.add_sink scope sink b.sinks })

  unfoldable pub remove_sink : Scope → Sink → Action (Bus Sinks) (Unit {0})
  remove_sink scope sink = do
    modify (λ b. record b { sinks = dispatching.remove_sink scope sink b.sinks })
    zoom (λ b. b.memberships) put_memberships
        (Membership.leave env (scope_to_group env naming scope))

  unfoldable pub handle_outgoing :
      (Fragment → Option Text) → Outgoing Scope → Action (Bus Sinks) (Unit {0})
  unfolding send_notification
  handle_outgoing serialize o = do
    on_connection (send_notification env serialize o)
    zoom (λ b. b.sinks) put_sinks (dispatching.map_sinks o.scope o.base)

  unfoldable pub handle_incoming : Transported Scope → Action (Bus Sinks) (Unit {0})
  handle_incoming n = zoom (λ b. b.sinks) put_sinks (dispatching.map_sinks n.scope n)

  unfoldable pub handle_error : Exception → Action (Bus Sinks) (Unit {0})
  handle_error e = zoom (λ b. b.sinks) put_sinks (dispatching.map_all e)

-- The adapter that the receiver calls, which holds the bus weakly: it does nothing if the bus is
-- gone.
module _ {B : Type 0} (f : Action B (Unit {0})) where
  unfoldable pub weakly : Action (Option B) (Unit {0})
  weakly none = (ok tt, none)
  weakly (some b) = let (r, c) = f b in (r, some c)
