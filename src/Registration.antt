-- ===== src/Registration.antt =====
-- src/rsb/transport/spread/registration.{h,cpp} and src/rsb/Plugin.cpp: the transport in the
-- registries of connectors that the core library keeps. The mutex makes a call atomic.
pub mod Repeating
use rsb_spread_cpp.Base.{
  ◌>>=◌, ◌>>◌, ℕ, ◌+◌, Bool, true, Option, none, some, List, [], ◌∷◌, Text, bytes, Action, ok,
  modify, zoom,
}

-- What the registries are told: the name, the factory whose method makes the connectors, by its
-- number, the name of the wire schema, whether it is for remote connections, and the options that
-- it knows.
pub record Entry : Type 0 where
  pub name : Text
  pub maker : ℕ
  pub schema : Text
  pub remote : Bool
  pub options : List Text

-- `registerConnector` of the registries for receiving and for sending.
pub record Registries (In Out : Type 0) : Type 0 where
  pub register_in : Entry → Action In (Unit {0})
  pub register_out : Entry → Action Out (Unit {0})

-- The shared pointer to the factory, how many factories there have been, and the registries.
pub record Transport (In Out : Type 0) : Type 0 where
  pub factory : Option ℕ
  pub created : ℕ
  pub in_factory : In
  pub out_factory : Out

abbrev pub spread_entry : ℕ → Entry
spread_entry f = record {
  name = bytes "spread";
  maker = f;
  schema = bytes "spread";
  remote = true;
  options = bytes "host" ∷ bytes "port" ∷ [];
}

module _ {In Out : Type 0} (registries : Registries In Out) where
  -- `factory.reset(new Factory())`.
  abbrev pub make_factory : Transport In Out → Transport In Out
  make_factory s = record s { factory = some s.created; created = s.created + 1 }

  abbrev pub register_with : ℕ → Action (Transport In Out) (Unit {0})
  register_with f = do
    zoom (λ s. s.in_factory) (λ s r. record s { in_factory = r })
        (registries.register_in (spread_entry f))
    zoom (λ s. s.out_factory) (λ s r. record s { out_factory = r })
        (registries.register_out (spread_entry f))

  unfoldable pub register_transport : Action (Transport In Out) (Unit {0})
  register_transport s = elim s.factory [
    | some f ↦ (ok tt, s)
    | none ↦ register_with s.created (make_factory s)
  ]

  -- The calls that would take the transport out of the registries are commented out in the source.
  unfoldable pub unregister_transport : Action (Transport In Out) (Unit {0})
  unregister_transport = modify (λ s. record s { factory = none })

  -- What the plugin does when it is loaded and unloaded.
  unfoldable pub plugin_init : Action (Transport In Out) (Unit {0})
  unfolding register_transport
  plugin_init = register_transport

  unfoldable pub plugin_shutdown : Action (Transport In Out) (Unit {0})
  unfolding unregister_transport
  plugin_shutdown = unregister_transport
