-- ===== src/Deserializing.antt =====
-- src/rsb/transport/spread/DeserializingHandler.{h,cpp}: turns messages into notifications.
pub mod Reception
use rsb_spread_cpp.Base.{
  ℕ, Bool, true, false, Option, none, some, ltb, if◌then◌else◌, Text, bytes, comm_error, Result, ok,
  throw, Action, and_then,
}
use rsb_spread_cpp.Spread.{Env}
use rsb_spread_cpp.Protocol.{Notification, Fragment}
use rsb_spread_cpp.Message.{Message, MessageType, regular}
use rsb_spread_cpp.Notifications.{Transported}
use rsb_spread_cpp.Pool.{Pool, default_pool}
use rsb_spread_cpp.Pool
use rsb_spread_cpp.GroupNameCache.{Naming}

-- `type == REGULAR`.
abbrev pub is_regular : MessageType → Bool
is_regular regular = true
is_regular _ = false

-- The handler is its pool.
abbrev pub DeserializingHandler : Type 0
DeserializingHandler = Pool

unfoldable pub new_handler : Result DeserializingHandler
new_handler = default_pool

abbrev pub set_pruning : Bool → DeserializingHandler → DeserializingHandler
set_pruning = Pool.set_pruning

unfoldable pub maybe_join_fragments : Env → ℕ → Fragment → Action Pool (Option Notification)
maybe_join_fragments env now f p =
    if ltb 1 f.num_data_parts then Pool.add env now f p else (ok (some f.notification), p)

-- `parse` is `ParseFromString` of the fragments.
module _ {Scope : Type 0} (env : Env) (naming : Naming Scope) (parse : Text → Option Fragment) where
  abbrev pub transport : Notification → Scope → Transported Scope
  transport n s = record {
    scope = s;
    wire_schema = n.wire_schema;
    serialized_payload = n.payload;
    notification = n;
  }

  -- The end of `handleMessage`.
  unfoldable pub incoming : Option Notification → Result (Option (Transported Scope))
  incoming none = ok none
  incoming (some n) = and_then (naming.parse_scope n.scope) (λ s. ok (some (transport n s)))

  unfoldable pub handle_fragment : ℕ → Option Fragment → Action Pool (Option (Transported Scope))
  unfolding maybe_join_fragments incoming
  handle_fragment now none p =
      (throw (comm_error (bytes "Failed to parse notification in pbuf format")), p)
  handle_fragment now (some f) p =
      let (r, q) = maybe_join_fragments env now f p in (and_then r incoming, q)

  unfoldable pub handle_message : ℕ → Message → Action Pool (Option (Transported Scope))
  unfolding handle_fragment
  handle_message now m p =
      if is_regular m.type then handle_fragment now (parse m.payload) p else (ok none, p)
