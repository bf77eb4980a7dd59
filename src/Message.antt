-- ===== src/Message.antt =====
-- src/rsb/transport/spread/SpreadMessage.{h,cpp}: a message with its type, its quality of service,
-- its payload and the set of groups that it is for.
pub mod Groups
pub mod Adding
pub mod Sets
use rsb_spread_cpp.Base.{
  ok, throw, ℕ, ◌-◌, ◌%◌, ◌^◌, ℤ, pos, negsuc, Text, List, [], ◌∷◌, ◌++◌, length, Action,
  invalid_argument, bytes, ltb, if◌then◌else◌, text_ltb,
}
use rsb_spread_cpp.Spread.{Env}

pub data MessageType : Type 0 where
  regular membership other : MessageType

pub data Qos : Type 0 where
  unreliable reliable fifo causal agreed safe : Qos

-- The values that the client library uses too.
abbrev pub qos_code : Qos → ℕ
qos_code unreliable = 0x01
qos_code reliable = 0x02
qos_code fifo = 0x04
qos_code causal = 0x08
qos_code agreed = 0x10
qos_code safe = 0x20

-- `groups` holds the elements of the `std::set` in their order.
pub record Message : Type 0 where
  pub type : MessageType
  pub qos : Qos
  pub payload : Text
  pub groups : List Text

abbrev pub new_message : Message
new_message = record { type = other; qos = unreliable; payload = []; groups = [] }

abbrev pub new_message_of_type : MessageType → Message
new_message_of_type t = record { type = t; qos = unreliable; payload = []; groups = [] }

abbrev pub new_message_with : Text → Message
new_message_with d = record { type = other; qos = unreliable; payload = d; groups = [] }

abbrev pub set_type : MessageType → Message → Message
set_type t m = record m { type = t }

abbrev pub set_qos : Qos → Message → Message
set_qos q m = record m { qos = q }

abbrev pub set_data : Text → Message → Message
set_data d m = record m { payload = d }

-- A length that is returned as an `int`.
abbrev pub get_size : Message → ℤ
get_size m =
    let n = length m.payload % 2 ^ 32 in if ltb n (2 ^ 31) then pos n else negsuc (2 ^ 32 - 1 - n)

-- `std::set::insert`.
unfoldable pub insert_set : Text → List Text → List Text
insert_set name [] = name ∷ []
insert_set name (g ∷ gs) =
    if text_ltb name g
    then name ∷ g ∷ gs
    else if text_ltb g name
    then g ∷ insert_set name gs
    else g ∷ gs

unfoldable pub add_group : Env → Text → Action Message (Unit {0})
add_group env name m =
    if ltb (env.max_group_name - 1) (length name)
    then (
      throw (invalid_argument (bytes "Group name '" ++ name ++ bytes "' is too long for spread.")),
      m,
    )
    else (ok tt, record m { groups = insert_set name m.groups })
