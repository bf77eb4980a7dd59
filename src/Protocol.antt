-- ===== src/Protocol.antt =====
-- The messages of rsb's protocol that the transport handles, as far as it reads or writes them. The
-- classes are generated elsewhere; here they are records.
use rsb_spread_cpp.Base.{ℕ, Text}

-- `rest` stands for the fields that the transport hands on without a look at them.
pub record Notification : Type 0 where
  pub sender_id : Text
  pub sequence_number : ℕ
  pub scope : Text
  pub wire_schema : Text
  pub payload : Text
  pub rest : Text

pub record Fragment : Type 0 where
  pub notification : Notification
  pub open notification use *
  pub num_data_parts : ℕ
  pub data_part : ℕ
