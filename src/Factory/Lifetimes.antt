-- ===== src/Factory/Lifetimes.antt =====
-- src/rsb/transport/spread/{Factory,BusImpl}.cpp: the buses of a process from the first connector
-- to the last.
use rsb_spread_cpp.Base.{
  ℕ, zero, suc, ◌≡◌, refl, sym, ap, ◌∙◌, ap₂, subst, ◌⊎◌, inl, inr, Option, none, some, List, [],
  ◌∷◌, ◌++◌, arith, length, get_elem?, lookup, Text,
}
use mathlib.Core.Option.{some-injective}
use rsb_spread_cpp.Spread.{Env}
use rsb_spread_cpp.Protocol.{Fragment}
use rsb_spread_cpp.GroupNameCache.{Naming}
use rsb_spread_cpp.Base.{All, false}
use rsb_spread_cpp.Bus
use rsb_spread_cpp.Bus.{Dispatching, Bus, connection}
use rsb_spread_cpp.Bus.Lifecycle.{IsConsistent}
use rsb_spread_cpp.Bus.Consistency.{BusOperation, SameDaemon, step}
use rsb_spread_cpp.Factory.{
  HostAndPort, HostAndPort_discrete, Options, Factory, lock, create_in_connector,
  create_out_connector,
}
use rsb_spread_cpp.Factory.Sharing.{IsFor, IsRight}

-- Changes the item of this number, if there is one.
abbrev pub change : {A : Type 0} → (A → A) → ℕ → List A → List A
change g i [] = []
change g zero (x ∷ xs) = g x ∷ xs
change g (suc i) (x ∷ xs) = x ∷ change g i xs

length-change : {A : Type 0} (g : A → A) (i : ℕ) (xs : List A) → length (change g i xs) ≡ length xs
length-change g i [] = refl
length-change g zero (x ∷ xs) = refl
length-change g (suc i) (x ∷ xs) = ap suc (length-change g i xs)

get_elem?-change :
    {A : Type 0} (g : A → A) (i j : ℕ) (xs : List A) (y : A)
    → get_elem? (change g i xs) j ≡ some y
    → (get_elem? xs j ≡ some y) ⊎ ((i ≡ j) × ((x : A) × (get_elem? xs j ≡ some x) × (g x ≡ y)))
get_elem?-change g i j [] y e = inl e
get_elem?-change g zero zero (x ∷ xs) y e = inr (refl, (x, refl, some-injective _ _ e))
get_elem?-change g zero (suc j) (x ∷ xs) y e = inl e
get_elem?-change g (suc i) zero (x ∷ xs) y e = inl e
get_elem?-change g (suc i) (suc j) (x ∷ xs) y e = elim (get_elem?-change g i j xs y e) [
  | inl same ↦ inl same
  | inr (k, changed) ↦ inr (ap suc k, changed)
]

pub get_elem?-append_inv :
    {A : Type 0} (xs : List A) (x y : A) (j : ℕ)
    → get_elem? (xs ++ x ∷ []) j ≡ some y
    → (get_elem? xs j ≡ some y) ⊎ ((j ≡ length xs) × (x ≡ y))
get_elem?-append_inv [] x y zero e = inr (refl, some-injective _ _ e)
get_elem?-append_inv [] x y (suc j) e = absurd (cc)
get_elem?-append_inv (z ∷ xs) x y zero e = inl e
get_elem?-append_inv (z ∷ xs) x y (suc j) e = elim (get_elem?-append_inv xs x y j e) [
  | inl old ↦ inl old
  | inr (k, new) ↦ inr (ap suc k, new)
]

module _ {Sinks : Type 0} where
  -- The bus of this number lives.
  abbrev pub Lives : Factory Sinks → ℕ → Bus Sinks → Type 0
  Lives f i b = lock f.heap i ≡ some b

  abbrev pub daemon_of : Bus Sinks → HostAndPort
  daemon_of b = ((connection b).host, (connection b).port)

  -- A slot that holds a bus.
  pub Lives-slot :
      (heap : List (Option (Bus Sinks))) (i : ℕ) (b : Bus Sinks)
      → lock heap i ≡ some b
      → get_elem? heap i ≡ some (some b)
  unfolding lock
  Lives-slot heap i b e = ground arith

  pub slot-Lives :
      (heap : List (Option (Bus Sinks))) (i : ℕ) (s : Option (Bus Sinks))
      → get_elem? heap i ≡ some s
      → lock heap i ≡ s
  unfolding lock
  slot-Lives heap i s e = ground arith

module _ {Sinks : Type 0} where
  -- What happens to the bus of a number; one that a destructor has run on is gone.
  abbrev pub on_slot : (Bus Sinks → Bus Sinks) → Option (Bus Sinks) → Option (Bus Sinks)
  on_slot g none = none
  on_slot g (some b) = some (g b)

  abbrev pub change_slot :
      (Option (Bus Sinks) → Option (Bus Sinks)) → ℕ → Factory Sinks → Factory Sinks
  change_slot g i f = record f { heap = change g i f.heap }

  -- The destructor of the bus runs, if there is one.
  abbrev pub end_bus : Env → ℕ → Option (Bus Sinks) → Factory Sinks → Factory Sinks
  end_bus env i none f = f
  end_bus env i (some b) f = record (change_slot (λ s. none) i f) {
    ended = (Bus.destroy env b).1 ∷ f.ended;
  }

-- What the clients of the factory can do: create connectors, use a bus that they hold, or let go of
-- one as the last, which runs its destructor.
pub data FactoryEvent (Scope Sink : Type 0) : Type 0 where
  creates_in creates_out : Options → FactoryEvent Scope Sink
  uses : ℕ → BusOperation Scope Sink → FactoryEvent Scope Sink
  lets_go : ℕ → FactoryEvent Scope Sink

module _ {Scope Sink Sinks : Type 0} (env : Env) (naming : Naming Scope)
    (dispatching : Dispatching Scope Sink Sinks) (serialize : Fragment → Option Text)
    (root : Scope) where
  unfoldable pub factory_step : FactoryEvent Scope Sink → Factory Sinks → Factory Sinks
  factory_step (creates_in o) f =
      (create_in_connector env naming dispatching {Receiver = Sink} root o f).1
  factory_step (creates_out o) f = (create_out_connector env naming dispatching o f).1
  factory_step (uses i o) f = change_slot (on_slot (step env naming dispatching serialize o)) i f
  factory_step (lets_go i) f = end_bus env i (lock f.heap i) f

-- Each event with what the daemon answers from then on.
unfoldable pub factory_run :
    {Scope Sink Sinks : Type 0}
    → Naming Scope
    → Dispatching Scope Sink Sinks
    → (Fragment → Option Text)
    → Scope
    → List (Env × FactoryEvent Scope Sink)
    → Factory Sinks
    → Factory Sinks
factory_run naming dispatching serialize root [] f = f
factory_run naming dispatching serialize root ((env, e) ∷ es) f =
    factory_run naming dispatching serialize root es
      (factory_step env naming dispatching serialize root e f)

-- The live buses are those that the factory knows, each for its own daemon.
pub record IsExact {Sinks : Type 0} (f : Factory Sinks) : Type 0 where
  pub right : IsRight f
  pub known :
      (i : ℕ) (b : Bus Sinks)
      → Lives f i b
      → lookup HostAndPort_discrete (daemon_of b) f.buses ≡ some i
  pub consistent : (i : ℕ) (b : Bus Sinks) → Lives f i b → IsConsistent b
  -- The destructors have closed their sessions.
  pub closed : All (λ b. (connection b).connected ≡ false) f.ended

module _ {Sinks : Type 0} where
  -- What a change makes of a bus that lives.
  abbrev pub Made :
      (Option (Bus Sinks) → Option (Bus Sinks)) → Option (Bus Sinks) → Bus Sinks → Type 0
  Made g s b =
      (c : Bus Sinks) × (s ≡ some c)
      × SameDaemon (connection c) (connection b)
      × (IsConsistent c → IsConsistent b)

  Lives-changed :
      (g : Option (Bus Sinks) → Option (Bus Sinks)) (i j : ℕ) (f : Factory Sinks) (b : Bus Sinks)
      → ((s : Option (Bus Sinks)) (b : Bus Sinks) → g s ≡ some b → Made g s b)
      → Lives (change_slot g i f) j b
      → Made g (lock f.heap j) b
  Lives-changed g i j f b makes e =
      elim (get_elem?-change g i j f.heap (some b) (Lives-slot (change g i f.heap) j b e)) [
        | inl old ↦ (b, slot-Lives f.heap j (some b) old, (refl, refl), λ v. v)
        | inr (same, (s, old, made)) ↦
            subst (λ s. Made g s b) (sym (slot-Lives f.heap j s old)) (makes s b made)
      ]

  pub change_slot-IsExact :
      (g : Option (Bus Sinks) → Option (Bus Sinks)) (i : ℕ) (f : Factory Sinks)
      → ((s : Option (Bus Sinks)) (b : Bus Sinks) → g s ≡ some b → Made g s b)
      → IsExact f
      → IsExact (change_slot g i f)
  change_slot-IsExact g i f makes v = record {
    right = λ o j e. (
      omega (arith, (v.right o j e).0, length-change g i f.heap),
      for_its_own o j (v.right o j e).1 (lock (change g i f.heap) j) refl,
    );
    known = λ j b e.
        let (c, old, (host, port), keeps) = Lives-changed g i j f b makes e in
        ap (λ k. lookup HostAndPort_discrete k f.buses) (ap₂ (λ h p. (h, p)) host port)
        ∙ v.known j c old;
    consistent = λ j b e.
        let (c, old, same, keeps) = Lives-changed g i j f b makes e in keeps (v.consistent j c old);
    closed = v.closed;
  }
    where
      for_its_own :
          (o : HostAndPort) (j : ℕ)
          → (lock f.heap j ≡ none) ⊎ IsFor o (lock f.heap j)
          → (s : Option (Bus Sinks)) → lock (change g i f.heap) j ≡ s
          → (s ≡ none) ⊎ IsFor o s
      for_its_own o j h none e = inl refl
      for_its_own o j h (some b) e =
          let (c, old, (host, port), keeps) = Lives-changed g i j f b makes e in
          elim h [
            | inl dead ↦ absurd (cc)
            | inr good ↦ let (h, p) = subst (IsFor o) old good in inr (host ∙ h, port ∙ p)
          ]
