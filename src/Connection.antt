-- ===== src/Connection.antt =====
-- src/rsb/transport/spread/SpreadConnection.{h,cpp}: a session with the Spread daemon. The build is
-- not one for Windows, so no lock is taken and a local daemon is named by its port alone.
pub mod Sessions
pub mod Inactive
pub mod Sending
pub mod Delivery
use rsb_spread_cpp.Base.{
  ◌>>=◌, ◌>>◌, ℕ, zero, suc, ◌*◌, ite, Bool, true, false, ◌&&◌, not, List, [], ◌∷◌, ◌++◌, ltb,
  if◌then◌else◌, length, take, ℤ, pos, is_negative, rounds, ℤ_discrete, Text, bytes, Text_discrete,
  c_str, illegal_state, comm_error, thread_interrupted, out_of_bounds, ok, throw, Action, ◌>>◌,
  pure, raise, crash, get, modify, check, require, zoom,
}
use rsb_spread_cpp.Spread.{
  Call, connect, disconnect, multicast, multigroup_multicast, History, Received, Env,
}
use rsb_spread_cpp.ErrorMessages.{spread_error_string}
use rsb_spread_cpp.Message.{Message, regular, membership, qos_code, set_type, set_data, add_group}
use Prim.Native.Nat.{bit_or}

abbrev pub spread_max_groups : ℕ
spread_max_groups = 100

unfoldable pub default_host : Text
default_host = bytes "localhost"

abbrev pub default_port : Env → ℕ
default_port env = env.default_spread_port

pub record Connection : Type 0 where
  pub connected : Bool
  pub host : Text
  pub port : ℕ
  pub daemon_name : Text
  pub mailbox : ℤ
  pub private_group : Text

-- A connection, and the calls that the program has made of the client library.
pub record Link : Type 0 where
  pub connection : Connection
  pub open connection use *
  pub history : History

unfoldable pub daemon_address : Env → Text → ℕ → Text
daemon_address env host port =
    ite (Text_discrete host default_host) (env.decimal (pos port))
      (env.decimal (pos port) ++ bytes "@" ++ host)

-- The handle is set by `activate`.
unfoldable pub new_connection : Env → Text → ℕ → Connection
unfolding daemon_address
new_connection env host port = record {
  connected = false;
  host = host;
  port = port;
  daemon_name = daemon_address env host port;
  mailbox = pos 0;
  private_group = [];
}

unfoldable pub print_contents : Connection → Text
print_contents c = c.private_group ++ bytes "@" ++ c.daemon_name

unfoldable pub get_transport_url : Env → Connection → Text
get_transport_url env c = bytes "spread://" ++ c.host ++ bytes ":" ++ env.decimal (pos c.port)

abbrev pub is_active : Link → Bool
is_active l = l.connected

-- `throw IllegalStateException` unless the connection is active.
abbrev require_active : Action Link (Unit {0})
require_active l = require l.connected (illegal_state (bytes "Connection is not active.")) l

abbrev pub log_call : Call → Link → Link
log_call c l = record l { history = c ∷ l.history }

unfoldable pub activate : Env → Action Link (Unit {0})
activate env l =
    let name = c_str l.daemon_name in
    let reply = env.sp_connect l.history name in
    let called = record (log_call (connect name) l) {
      connection = record l.connection { mailbox = reply.mailbox };
    } in
    if l.connected
    then raise
        (illegal_state
          (bytes "Connection with id " ++ l.private_group ++ bytes " is already active."))
        l
    else ite (ℤ_discrete reply.ret env.accept_session)
        (
          ok tt,
          record called {
            connection = record called.connection {
              private_group = reply.private_group;
              connected = true;
            };
          },
        )
        (raise
          (comm_error (
            bytes "Error connecting to Spread daemon at '"
            ++ l.daemon_name
            ++ bytes "': "
            ++ spread_error_string env reply.ret))
          called)

unfoldable pub deactivate : Action Link (Unit {0})
deactivate = do
  require_active
  l ← get
  modify (log_call (disconnect l.mailbox))
  modify (λ k. record k { connection = record k.connection { connected = false } })

-- The destructor.
unfoldable pub destroy : Action Link (Unit {0})
unfolding deactivate
destroy l = if l.connected then deactivate l else pure tt l

-- `throw CommException` unless the client library returned 0.
abbrev expect_zero : Env → Text → ℤ → Action Link (Unit {0})
expect_zero env what ret l = (
  ite (ℤ_discrete ret (pos 0)) (ok tt) (throw (comm_error (what ++ spread_error_string env ret))),
  l,
)

unfoldable pub join : Env → Text → Action Link (Unit {0})
join env group = do
  require_active
  l ← get
  modify (log_call (Call.join l.mailbox (c_str group)))
  expect_zero env (bytes "Error joining Spread group '" ++ group ++ bytes "': ")
      (env.sp_join l.history l.mailbox (c_str group))

unfoldable pub leave : Env → Text → Action Link (Unit {0})
leave env group = do
  require_active
  l ← get
  modify (log_call (Call.leave l.mailbox (c_str group)))
  expect_zero env (bytes "Error leaving Spread group '" ++ group ++ bytes "': ")
      (env.sp_leave l.history l.mailbox (c_str group))

-- `throw CommException` if the client library returned a negative number.
abbrev expect_nonnegative : Env → Text → ℤ → Action Link (Unit {0})
expect_nonnegative env what ret =
    require (not (is_negative ret)) (comm_error (what ++ spread_error_string env ret))

-- The connection together with the out parameter of `receive`.
pub record Reception : Type 0 where
  pub link : Link
  pub message : Message

-- The loop over the first `n` entries of the group array.
unfoldable pub add_received : Env → ℕ → List Text → Action Message (Unit {0})
add_received env zero groups = pure tt
add_received env (suc n) [] = crash out_of_bounds
add_received env (suc n) (g ∷ groups) = add_group env (c_str g) >> add_received env n groups

-- `std::string(groups[0])`.
abbrev pub first_group : List Text → Text
first_group [] = []
first_group (g ∷ _) = c_str g

abbrev store_message : Reception → Message → Reception
store_message s m = record s { message = m }

abbrev fill : Received → Message → Message
fill r m = set_data (take (rounds r.ret) r.buffer) (set_type regular m)

-- A regular message is stored in the out parameter.
unfoldable pub store_regular : Env → Received → Action Reception (Unit {0})
unfolding add_received
store_regular env r =
    zoom (λ s. s.message) store_message
      (modify (fill r) >> add_received env (rounds r.num_groups) r.groups)

-- A message to the private group alone asks the receiver to stop.
unfoldable pub receive_regular : Env → Received → Action Reception (Unit {0})
unfolding store_regular
receive_regular env r s =
    ite (ℤ_discrete r.num_groups (pos 1))
      (ite (Text_discrete (first_group r.groups) s.link.private_group) (throw thread_interrupted, s)
        (store_regular env r s))
      (store_regular env r s)

unfoldable pub receive : Env → Action Reception (Unit {0})
unfolding receive_regular
receive env = do
  zoom (λ t. t.link) (λ t l. record t { link = l }) require_active
  s ← get
  let r = env.sp_receive s.link.history s.link.mailbox
  zoom (λ t. t.link) (λ t l. record t { link = l })
      do
        modify (log_call (Call.receive s.link.mailbox))
        expect_nonnegative env (bytes "Spread receive error: ") r.ret
  if env.is_regular_mess r.service_type
      then receive_regular env r
      else if env.is_membership_mess r.service_type
      then modify (λ t. record t { message = set_type membership t.message })
      else (check env.ndebug false
          >> raise (
              comm_error (
                bytes
                  "Received a message that is neither membership nor data message. This should never happen according to the spread documentation.")))

-- The loop that copies the names of the groups into an array of `SPREAD_MAX_GROUPS` rows, each of
-- `MAX_GROUP_NAME` bytes, from row `i` on; the rows are read as C strings.
unfoldable pub copy_groups : Env → ℕ → List Text → Action Link (List Text)
copy_groups env i [] = pure []
copy_groups env i (g ∷ gs) = do
  check env.ndebug (ltb (length g) env.max_group_name)
  if ltb i spread_max_groups && ltb (length g) env.max_group_name
      then pure tt
      else crash out_of_bounds
  rows ← copy_groups env (suc i) gs
  pure (c_str g ∷ rows)

abbrev send_service : Env → Message → ℕ
send_service env m = bit_or (qos_code m.qos) env.self_discard

unfoldable pub send_to : Env → Message → List Text → Action Link (Unit {0})
unfolding copy_groups
send_to env m [] =
    check env.ndebug false >> raise (comm_error (bytes "Group information missing in message"))
send_to env m (group ∷ []) = do
  check env.ndebug (ltb (length group) env.max_group_name)
  l ← get
  modify (log_call (multicast l.mailbox (send_service env m) (c_str group) m.payload))
  expect_nonnegative env (bytes "Spread send error: ")
      (env.sp_multicast l.history l.mailbox (send_service env m) (c_str group) m.payload)
send_to env m groups = do
  rows ← copy_groups env 0 groups
  l ← get
  modify (log_call (multigroup_multicast l.mailbox (send_service env m) rows m.payload))
  expect_nonnegative env (bytes "Spread send error: ")
      (env.sp_multigroup_multicast l.history l.mailbox (send_service env m) rows m.payload)

unfoldable pub send : Env → Message → Action Link (Unit {0})
unfolding send_to
send env m = do require_active; send_to env m m.groups

unfoldable pub interrupt_receive : Env → Action Link (Unit {0})
interrupt_receive env = do
  require_active
  l ← get
  modify (log_call (multicast l.mailbox env.reliable_mess (c_str l.private_group) []))
