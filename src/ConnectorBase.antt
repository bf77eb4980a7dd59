-- ===== src/ConnectorBase.antt =====
-- src/rsb/transport/spread/ConnectorBase.{h,cpp}: whether a connector is active.
use rsb_spread_cpp.Base.{
  ◌++◌, Text, Bool, false, Result, ok, throw, if◌then◌else◌, illegal_state, bytes,
}
use rsb_spread_cpp.Spread.{Env}
use rsb_spread_cpp.Bus.{Bus, transport_url}

-- The flag is set by the classes below.
unfoldable pub activate : Bool → Result (Unit {0})
activate active =
    if active then throw (illegal_state (bytes "Connector is already active")) else ok tt

unfoldable pub deactivate : Bool → Result (Unit {0})
deactivate active =
    if active then ok tt else throw (illegal_state (bytes "Connector is not active"))

-- What every connector holds. The bus is shared, so that a connector has a pointer to it.
pub record ConnectorBase (Pointer : Type 0) : Type 0 where
  pub active : Bool
  pub bus : Pointer

module _ {Pointer : Type 0} where
  unfoldable pub new_connector_base : Pointer → ConnectorBase Pointer
  new_connector_base bus = record { active = false; bus = bus }

  -- `show` is what is printed of a pointer.
  unfoldable pub print_contents : (Pointer → Text) → ConnectorBase Pointer → Text
  print_contents show c =
      bytes "active = " ++ bytes (if c.active then "1" else "0") ++ bytes ", bus = " ++ show c.bus

  -- `look` is the bus behind a pointer.
  unfoldable pub get_transport_url :
      {Sinks : Type 0} → Env → (Pointer → Bus Sinks) → ConnectorBase Pointer → Text
  get_transport_url env look c = transport_url env (look c.bus)

  abbrev pub is_active : ConnectorBase Pointer → Bool
  is_active c = c.active
