-- ===== src/Notifications.antt =====
-- src/rsb/transport/spread/Notifications.h: what the connectors and the bus hand to each other.
use rsb_spread_cpp.Base.{Text, List}
use rsb_spread_cpp.Protocol.{Notification, Fragment}
use rsb_spread_cpp.Message.{Qos}

-- The base class. `notification` is what its pointer points to.
pub record Transported (Scope : Type 0) : Type 0 where
  pub scope : Scope
  pub wire_schema : Text
  pub serialized_payload : Text
  pub notification : Notification

pub record Outgoing (Scope : Type 0) : Type 0 where
  pub base : Transported Scope
  pub open base use *
  pub qos : Qos
  pub groups : List Text
  pub fragments : List Fragment
