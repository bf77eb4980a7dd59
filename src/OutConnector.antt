-- ===== src/OutConnector.antt =====
-- src/rsb/transport/spread/OutConnector.{h,cpp}: turns an event into the fragments of a
-- notification and hands them to the bus. The event, its converter and what protobuf says of a
-- message come from other libraries.
pub mod Cutting
pub mod Counting
pub mod Limits
pub mod Preparing
pub mod Publishing
use rsb_spread_cpp.Base.{
  ◌>>=◌, ◌>>◌, ℕ, zero, suc, ◌+◌, ◌-◌, ◌%◌, ◌^◌, Bool, true, false, ◌||◌, List, [], ◌∷◌, ltb, leb,
  ◌==◌, if◌then◌else◌, length, take, drop, Text, bytes, protocol_error, other_exception,
  assertion_failed, out_of_bounds, Result, ok, throw, fault, Action, modify, zoom, endless,
  and_then,
}
use rsb_spread_cpp.Spread.{Env}
use rsb_spread_cpp.Protocol.{Notification, Fragment}
use rsb_spread_cpp.Message.{Qos}
use rsb_spread_cpp.Notifications.{Outgoing}
use rsb_spread_cpp.GroupNameCache.{Naming, scope_to_groups}
use rsb_spread_cpp.ConnectorBase

-- What the program uses of events, converters and the protocol. `serialize` finds the converter for
-- the event's type and gives the wire schema and the wire; `byte_size` is protobuf's.
pub record Events (Scope Event : Type 0) : Type 0 where
  pub event_scope : Event → Scope
  pub set_send_time : ℕ → Event → Event
  pub serialize : Event → Result (Text × Text)
  pub fill_id : Event → Notification → Notification
  pub fill_header : Event → Text → Notification → Notification
  pub byte_size : Fragment → ℕ

pub data Ordering : Type 0 where
  unordered ordered : Ordering

pub data Reliability : Type 0 where
  unreliable reliable : Reliability

-- `a - b` and `a + b` on `unsigned int`s.
abbrev pub uint_sub : ℕ → ℕ → ℕ
uint_sub a b = (a + 2 ^ 32 - b) % 2 ^ 32

abbrev pub uint_add : ℕ → ℕ → ℕ
uint_add a b = (a + b) % 2 ^ 32

pub record Connector (Scope : Type 0) : Type 0 where
  pub active : Bool
  pub group_name_cache : List (Scope × List Text)
  pub qos_specs : Ordering × Reliability
  pub message_qos : Qos
  pub max_fragment_size : ℕ
  pub min_data_space : ℕ

unfoldable pub qos_for : Ordering → Reliability → Qos
qos_for unordered unreliable = Qos.unreliable
qos_for unordered reliable = Qos.reliable
qos_for ordered unreliable = Qos.fifo
qos_for ordered reliable = Qos.fifo

-- What a freshly constructed message holds.
abbrev pub blank_notification : Notification
blank_notification = record {
  sender_id = [];
  sequence_number = 0;
  scope = [];
  wire_schema = [];
  payload = [];
  rest = [];
}

abbrev pub blank_fragment : Fragment
blank_fragment = record { notification = blank_notification; num_data_parts = 0; data_part = 0 }

-- `std::string::substr`.
unfoldable pub substr : Text → ℕ → ℕ → Result Text
substr text offset n =
    if ltb (length text) offset
    then throw (other_exception (bytes "std::out_of_range"))
    else ok (take n (drop offset text))

module _ {Scope : Type 0} where
  unfoldable pub new_connector : ℕ → Connector Scope
  new_connector max_fragment_size = record {
    active = false;
    group_name_cache = [];
    qos_specs = (ordered, reliable);
    message_qos = Qos.fifo;
    max_fragment_size = max_fragment_size;
    min_data_space = 5;
  }

  -- Empty in the source, too.
  abbrev pub set_scope : Scope → Connector Scope → Connector Scope
  set_scope scope c = c

  unfoldable pub activate : Action (Connector Scope) (Unit {0})
  activate = do λ c. (ConnectorBase.activate c.active, c); modify (λ c. record c { active = true })

  unfoldable pub deactivate : Action (Connector Scope) (Unit {0})
  deactivate = do
    λ c. (ConnectorBase.deactivate c.active, c)
    modify (λ c. record c { active = false })

  -- The destructor.
  unfoldable pub destroy : Action (Connector Scope) (Unit {0})
  unfolding deactivate
  destroy c = if c.active then deactivate c else (ok tt, c)

  unfoldable pub set_quality_of_service_specs :
      Ordering × Reliability → Connector Scope → Connector Scope
  unfolding qos_for
  set_quality_of_service_specs (o, r) c = record c { qos_specs = (o, r); message_qos = qos_for o r }

  -- The space that is left for the payload, in a fragment that has this size without it.
  unfoldable pub data_space : Env → Connector Scope → ℕ → Result ℕ
  data_space env c header =
      let limit = uint_sub c.max_fragment_size c.min_data_space in
      if env.ndebug || leb header limit
      then if leb limit header
        then throw (protocol_error (bytes "The meta data of this event are too big for Spread!"))
        else ok (uint_sub c.max_fragment_size header)
      else fault assertion_failed

  module _ {Event : Type 0} (env : Env) (events : Events Scope Event) where
    open events use {event_scope, set_send_time, serialize, fill_id, fill_header, byte_size}

    -- A fragment without its payload.
    unfoldable pub populate : Event → Text → ℕ → Fragment
    populate e schema i =
        let identified = fill_id e blank_notification in
        record blank_fragment {
          notification = if i == 0 then fill_header e schema identified else identified;
        }

    abbrev pub with_part : Fragment → ℕ → Text → Fragment
    with_part f i part = record {
      notification = record f.notification { payload = part };
      num_data_parts = 1;
      data_part = i;
    }

    module _ (c : Connector Scope) (e : Event) (schema wire : Text) where
      -- The body of the loop: a fragment and the next offset.
      unfoldable pub cut_one : ℕ → ℕ → Result (Fragment × ℕ)
      unfolding data_space substr populate
      cut_one i offset =
          let f = populate e schema i in
          and_then (data_space env c (byte_size f)) (λ n.
            and_then (substr wire offset n) (λ part. ok (with_part f i part, uint_add offset n)))

      abbrev pub cons_cut :
          Result (Fragment × ℕ) → (ℕ → Result (List Fragment)) → Result (List Fragment)
      cons_cut r rest = and_then r (λ (f, next). and_then (rest next) (λ fs. ok (f ∷ fs)))

      -- The loop.
      unfoldable pub cut : ℕ → ℕ → ℕ → Result (List Fragment)
      unfolding cut_one
      cut zero i offset = fault endless
      cut (suc fuel) i offset =
          if i == 0 || ltb offset (length wire)
          then cons_cut (cut_one i offset) (λ next. cut fuel (uint_add i 1) next)
          else ok []

    unfoldable pub outgoing :
        Scope → Qos → List Text → Text → Text → List Fragment → Result (Outgoing Scope)
    outgoing scope qos groups schema wire [] = fault out_of_bounds
    outgoing scope qos groups schema wire (f ∷ fs) = ok (record {
      base = record {
        scope = scope;
        wire_schema = schema;
        serialized_payload = wire;
        notification = f.notification;
      };
      qos = qos;
      groups = groups;
      fragments = f ∷ fs;
    })

    -- The loop with its fuel. The first fragment takes one round, and each other at least one byte.
    unfoldable pub cut_wire : Connector Scope → Event → Text × Text → Result (List Fragment)
    unfolding cut
    cut_wire c e (schema, wire) = cut c e schema wire (length wire + 2) 0 0

    -- `handle`, up to the call of the bus, at a send time.
    unfoldable pub prepare : Naming Scope → ℕ → Event → Action (Connector Scope) (Outgoing Scope)
    unfolding outgoing cut_wire
    prepare naming now event c =
        let e = set_send_time now event in
        let (groups, cache) = scope_to_groups env naming (event_scope e) c.group_name_cache in
        (
          and_then (serialize e) (λ s.
              and_then (cut_wire c e s)
                (λ fs. outgoing (event_scope e) c.message_qos groups s.0 s.1 fs)),
          record c { group_name_cache = cache },
        )

    -- The bus is the second part of the state.
    unfoldable pub handle :
        {Bus : Type 0}
        → (Outgoing Scope → Action Bus (Unit {0}))
        → Naming Scope
        → ℕ
        → Event
        → Action (Connector Scope × Bus) (Unit {0})
    unfolding prepare
    handle to_bus naming now event = do
      o ← zoom (λ s. s.0) (λ s c. (c, s.1)) (prepare naming now event)
      zoom (λ s. s.1) (λ s b. (s.0, b)) (to_bus o)
