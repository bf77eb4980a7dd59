-- ===== src/Examples/Factories.antt =====
-- A process that creates connectors, lets go of their bus, and creates another.
use rsb_spread_cpp.Base.{ℕ, some, none, List, [], ◌∷◌, Text}
use rsb_spread_cpp.Spread.{Env}
use rsb_spread_cpp.Bus.Consistency.{deactivates, adds}
use rsb_spread_cpp.Factory.{Options, Factory, new_factory}
use rsb_spread_cpp.Factory.Lifetimes.{
  FactoryEvent, creates_in, creates_out, uses, lets_go, factory_run,
}
use rsb_spread_cpp.Factory.Uniqueness.{Shared, factory_run-Shared}
use rsb_spread_cpp.Examples.Fixtures.{env, naming}
use rsb_spread_cpp.Examples.Buses.{dispatching}

abbrev far : Options
far = record { host = some (104 ∷ []); port = some 4803; max_fragment_size = none }

abbrev near : Options
near = record { host = none; port = none; max_fragment_size = none }

abbrev life : List (Env × FactoryEvent Text ℕ)
life =
    (env, creates_in far)
    ∷ (env, uses 0 (adds (47 ∷ []) 5))
    ∷ (env, creates_out far)
    ∷ (env, creates_in near)
    ∷ (env, uses 0 deactivates)
    ∷ (env, lets_go 0)
    ∷ (env, creates_out far)
    ∷ []

abbrev after : Factory ℕ
after = factory_run naming dispatching (λ f. some []) (47 ∷ []) life new_factory

factory_run-Shared_example : Shared env naming dispatching after
factory_run-Shared_example = factory_run-Shared env naming dispatching (λ f. some []) (47 ∷ []) life
