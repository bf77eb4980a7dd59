-- ===== src/Spread.antt =====
-- The Spread client library (sp.h), which the program calls and this repository does not hold, as
-- far as the program sees it: its constants, the calls, and what each call answers. The daemon
-- answers as it likes, so an answer may depend on every call made before it.
use rsb_spread_cpp.Base.{ℕ, ℤ, Text, Bool, Option, List}

-- The calls that leave the program, with their arguments; the first is the handle of the mailbox.
pub data Call : Type 0 where
  connect : Text → Call
  disconnect : ℤ → Call
  join leave : ℤ → Text → Call
  receive : ℤ → Call
  multicast : ℤ → ℕ → Text → Text → Call
  multigroup_multicast : ℤ → ℕ → List Text → Text → Call

-- The latest call stands first.
abbrev pub History : Type 0
History = List Call

pub record Connected : Type 0 where
  pub ret : ℤ
  pub mailbox : ℤ
  pub private_group : Text

-- The groups are the C strings in the array, and `buffer` is the array that holds the message.
pub record Received : Type 0 where
  pub ret : ℤ
  pub service_type : ℤ
  pub num_groups : ℤ
  pub groups : List Text
  pub buffer : Text

pub record ErrorCodes : Type 0 where
  pub illegal_spread : ℤ
  pub could_not_connect : ℤ
  pub reject_quota : ℤ
  pub reject_no_name : ℤ
  pub reject_illegal_name : ℤ
  pub reject_not_unique : ℤ
  pub reject_version : ℤ
  pub reject_auth : ℤ
  pub connection_closed : ℤ
  pub net_error_on_session : ℤ
  pub illegal_session : ℤ
  pub illegal_service : ℤ
  pub illegal_message : ℤ
  pub illegal_group : ℤ
  pub groups_too_short : ℤ
  pub buffer_too_short : ℤ
  pub message_too_long : ℤ
  -- A macro that not every version of the library defines.
  pub sp_bug : Option ℤ

-- `ndebug` says whether the build leaves the asserts out, and `decimal` is how boost prints a
-- number.
pub record Env : Type 0 where
  pub ndebug : Bool
  pub decimal : ℤ → Text
  pub codes : ErrorCodes
  pub open codes use *
  pub accept_session : ℤ
  pub default_spread_port : ℕ
  pub max_group_name : ℕ
  pub self_discard : ℕ
  pub reliable_mess : ℕ
  pub is_regular_mess : ℤ → Bool
  pub is_membership_mess : ℤ → Bool
  pub sp_connect : History → Text → Connected
  pub sp_join : History → ℤ → Text → ℤ
  pub sp_leave : History → ℤ → Text → ℤ
  pub sp_receive : History → ℤ → Received
  pub sp_multicast : History → ℤ → ℕ → Text → Text → ℤ
  pub sp_multigroup_multicast : History → ℤ → ℕ → List Text → Text → ℤ
