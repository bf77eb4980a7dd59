-- ===== src/Examples/Fixtures.antt =====
-- A daemon, a session, scopes and events for the examples.
use rsb_spread_cpp.Base.{
  ℕ, true, false, none, some, [], ◌∷◌, length, pos, negsuc, Text, Text_discrete, ok,
}
use rsb_spread_cpp.Spread.{multicast, multigroup_multicast, History, Received, ErrorCodes, Env}
use rsb_spread_cpp.Protocol.{Notification, Fragment}
use rsb_spread_cpp.Message.{Message, fifo}
use rsb_spread_cpp.Message
use rsb_spread_cpp.Connection.{Connection, Link}
use rsb_spread_cpp.GroupNameCache.{Naming}
use rsb_spread_cpp.OutConnector.{Events, Connector, ordered, reliable}
use rsb_spread_cpp.Pool.{Pool, running}

-- It hands the last message back to its sender.
abbrev pub echoed : History → Received
echoed [] = record {
  ret = pos 0;
  service_type = pos 2;
  num_groups = pos 0;
  groups = [];
  buffer = [];
}
echoed (multicast m q g d ∷ h) = record {
  ret = pos (length d);
  service_type = pos 2;
  num_groups = pos 1;
  groups = g ∷ [];
  buffer = d;
}
echoed (multigroup_multicast m q gs d ∷ h) = record {
  ret = pos (length d);
  service_type = pos 2;
  num_groups = pos (length gs);
  groups = gs;
  buffer = d;
}
echoed (c ∷ h) = echoed h

abbrev pub codes : ErrorCodes
codes = record {
  illegal_spread = negsuc 0;
  could_not_connect = negsuc 1;
  reject_quota = negsuc 2;
  reject_no_name = negsuc 3;
  reject_illegal_name = negsuc 4;
  reject_not_unique = negsuc 5;
  reject_version = negsuc 6;
  reject_auth = negsuc 13;
  connection_closed = negsuc 7;
  net_error_on_session = negsuc 17;
  illegal_session = negsuc 10;
  illegal_service = negsuc 11;
  illegal_message = negsuc 12;
  illegal_group = negsuc 18;
  groups_too_short = negsuc 19;
  buffer_too_short = negsuc 20;
  message_too_long = negsuc 21;
  sp_bug = none;
}

abbrev pub env : Env
env = record {
  ndebug = false;
  decimal = λ z. 48 ∷ [];
  codes = codes;
  accept_session = pos 1;
  default_spread_port = 4803;
  max_group_name = 32;
  self_discard = 64;
  reliable_mess = 2;
  is_regular_mess = λ t. true;
  is_membership_mess = λ t. false;
  sp_connect = λ h t. record { ret = pos 1; mailbox = pos 7; private_group = 35 ∷ 109 ∷ [] };
  sp_join = λ h m g. pos 0;
  sp_leave = λ h m g. pos 0;
  sp_receive = λ h m. echoed h;
  sp_multicast = λ h m q g d. pos (length d);
  sp_multigroup_multicast = λ h m q gs d. pos (length d);
}

-- A daemon that has gone away.
abbrev pub broken_env : Env
broken_env = record env {
  sp_receive = λ h m. record {
    ret = negsuc 7;
    service_type = pos 0;
    num_groups = pos 0;
    groups = [];
    buffer = [];
  };
}

abbrev pub connection : Connection
connection = record {
  connected = true;
  host = 104 ∷ [];
  port = 4803;
  daemon_name = 52 ∷ [];
  mailbox = pos 7;
  private_group = 35 ∷ 109 ∷ [];
}

abbrev pub link : Link
link = record { connection = connection; history = [] }

abbrev pub inactive_link : Link
inactive_link = record { connection = record connection { connected = false }; history = [] }

abbrev pub message : Message
message = record {
  type = Message.other;
  qos = fifo;
  payload = 1 ∷ 2 ∷ 3 ∷ [];
  groups = (97 ∷ []) ∷ (98 ∷ []) ∷ [];
}

abbrev pub naming : Naming Text
naming = record {
  scope_discrete = Text_discrete;
  to_string = λ s. s;
  super_scopes = λ s itself. s ∷ (47 ∷ []) ∷ [];
  md5_hex = λ t. t;
  parse_scope = λ t. ok t;
}

-- An event is its payload.
abbrev pub events : Events Text Text
events = record {
  event_scope = λ e. 47 ∷ 97 ∷ [];
  set_send_time = λ now e. e;
  serialize = λ e. ok (115 ∷ [], e);
  fill_id = λ e n. record n { sender_id = 1 ∷ []; sequence_number = 7 };
  fill_header = λ e schema n. record n { scope = 47 ∷ 97 ∷ []; wire_schema = schema };
  byte_size = λ f. 2;
}

-- Eight bytes of the payload fit into a fragment.
abbrev pub connector : Connector Text
connector = record {
  active = true;
  group_name_cache = [];
  qos_specs = (ordered, reliable);
  message_qos = fifo;
  max_fragment_size = 10;
  min_data_space = 5;
}

abbrev pub wire : Text
wire = 1 ∷ 2 ∷ 3 ∷ 4 ∷ 5 ∷ 6 ∷ 7 ∷ 8 ∷ 9 ∷ 10 ∷ 11 ∷ []

abbrev pub notification : Notification
notification = record {
  sender_id = 1 ∷ [];
  sequence_number = 7;
  scope = 47 ∷ 97 ∷ [];
  wire_schema = 115 ∷ [];
  payload = [];
  rest = [];
}

-- The part of this number of the payload, in a notification of two parts.
abbrev pub part : ℕ → Text → Fragment
part i t = record {
  notification = record notification { payload = t };
  num_data_parts = 2;
  data_part = i;
}

-- Of another sender.
abbrev pub stranger : Fragment
stranger = record {
  notification = record notification { sender_id = 2 ∷ [] };
  num_data_parts = 2;
  data_part = 0;
}

abbrev pub pool : Pool
pool = record {
  assemblies = [];
  pruning_age = 20;
  pruning_interval = 4000;
  pruning_task = some running;
}

abbrev pub idle_pool : Pool
idle_pool = record pool { pruning_task = none }

abbrev pub key : Text
key = 1 ∷ 7 ∷ 0 ∷ 0 ∷ 0 ∷ []
