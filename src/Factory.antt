-- ===== src/Factory.antt =====
-- src/rsb/transport/spread/Factory.{h,cpp}: connectors for the same daemon share a bus as long as
-- it lives. The mutex makes a call atomic.
pub mod Sharing
pub mod Lifetimes
pub mod Creating
pub mod Uniqueness
use rsb_spread_cpp.Base.{
  ℕ, ap, ap₂, Option, none, some, List, [], ◌∷◌, ◌++◌, ℕ_discrete, length, get_elem?, Text,
  Text_discrete, lookup, insert, erase, Result, ok, throw, fault, Action, and_then,
}
use rsb_spread_cpp.Spread.{Env}
use rsb_spread_cpp.Connection.{Link, new_connection, default_host, default_port}
use rsb_spread_cpp.GroupNameCache.{Naming}
use rsb_spread_cpp.InConnector.{InConnector, new_in_connector}
use rsb_spread_cpp.OutConnector.{Connector, new_connector}
use rsb_spread_cpp.Bus.{Dispatching, Bus, new_bus}
use rsb_spread_cpp.Bus

abbrev pub HostAndPort : Type 0
HostAndPort = Text × ℕ

unfoldable pub HostAndPort_discrete : Discrete HostAndPort
HostAndPort_discrete a b = elim (Text_discrete a.0 b.0) [
  | yes e ↦ elim (ℕ_discrete a.1 b.1) [
    | yes f ↦ yes (ap₂ (λ h p. (h, p)) e f)
    | no ne ↦ no (λ p. ne (ap (λ (x : HostAndPort). x.1) p))
  ]
  | no ne ↦ no (λ p. ne (ap (λ (x : HostAndPort). x.0) p))
]

-- The buses that were ever created, each by its number, as long as someone holds it; those whose
-- destructors have run; and the weak pointers to the buses.
pub record Factory (Sinks : Type 0) : Type 0 where
  pub buses : List (HostAndPort × ℕ)
  pub heap : List (Option (Bus Sinks))
  pub ended : List (Bus Sinks)

abbrev pub new_factory : {Sinks : Type 0} → Factory Sinks
new_factory = record { buses = []; heap = []; ended = [] }

-- The options that a connector is created with, as far as they are given.
pub record Options : Type 0 where
  pub host : Option Text
  pub port : Option ℕ
  pub max_fragment_size : Option ℕ

abbrev pub given : {A : Type 0} → A → Option A → A
given a none = a
given a (some b) = b

unfoldable pub parse_options : Env → Options → HostAndPort
parse_options env o = (given default_host o.host, given (default_port env) o.port)

abbrev pub fragment_size : Options → ℕ
fragment_size o = given 100000 o.max_fragment_size

-- `lock` on the pointer to a bus.
unfoldable pub lock : {Sinks : Type 0} → List (Option (Bus Sinks)) → ℕ → Option (Bus Sinks)
lock heap i = elim (get_elem? heap i) [ none ↦ none | some slot ↦ slot ]

module _ {Scope Sink Sinks : Type 0} (env : Env) (naming : Naming Scope)
    (dispatching : Dispatching Scope Sink Sinks) where
  abbrev pub keep_bus :
      HostAndPort → Result (Unit {0}) × Bus Sinks → Factory Sinks → Result ℕ × Factory Sinks
  keep_bus o (ok _, b) f = (
    ok (length f.heap),
    record {
      buses = insert HostAndPort_discrete o (length f.heap) f.buses;
      heap = f.heap ++ some b ∷ [];
      ended = f.ended;
    },
  )
  keep_bus o (throw e, b) f = (throw e, f)
  keep_bus o (fault x, b) f = (fault x, f)

  -- The end of `obtainBus`; a bus that cannot be activated is given up.
  unfoldable pub create_bus : HostAndPort → Action (Factory Sinks) ℕ
  create_bus o f =
      let l : Link = record { connection = new_connection env o.0 o.1; history = [] } in
      keep_bus o (Bus.activate env (new_bus env naming dispatching l)) f

  unfoldable pub obtain_at : HostAndPort → Option ℕ → Action (Factory Sinks) ℕ
  unfolding create_bus
  obtain_at o none f = create_bus o f
  obtain_at o (some i) f = elim (lock f.heap i) [
    | none ↦ create_bus o (record f { buses = erase HostAndPort_discrete o f.buses })
    | some b ↦ (ok i, f)
  ]

  unfoldable pub obtain_bus : HostAndPort → Action (Factory Sinks) ℕ
  unfolding obtain_at
  obtain_bus o f = obtain_at o (lookup HostAndPort_discrete o f.buses) f

  -- The connectors, each with the number of its bus. `root` is the scope that a scope's default
  -- constructor gives.
  unfoldable pub create_in_connector :
      {Receiver : Type 0}
      → Scope
      → Options
      → Action (Factory Sinks) (ℕ × InConnector Scope Receiver)
  unfolding obtain_bus parse_options new_in_connector
  create_in_connector root o f =
      let (r, t) = obtain_bus (parse_options env o) f in
      (and_then r (λ i. ok (i, new_in_connector root)), t)

  unfoldable pub create_out_connector : Options → Action (Factory Sinks) (ℕ × Connector Scope)
  unfolding obtain_bus parse_options new_connector
  create_out_connector o f =
      let (r, t) = obtain_bus (parse_options env o) f in
      (and_then r (λ i. ok (i, new_connector (fragment_size o))), t)
