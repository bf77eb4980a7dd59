-- ===== src/Factory/Creating.antt =====
-- src/rsb/transport/spread/Factory.cpp: what a request leaves of the buses that live.
use rsb_spread_cpp.Base.{
  ℕ, ◌≡◌, ◌≢◌, refl, sym, ap, ap₂, ◌∙◌, subst, ◌⊎◌, inl, inr, Option, none, some, [], ◌∷◌, ◌++◌,
  length, lookup, insert, erase, lookup-insert_self, lookup-insert_ne, lookup-erase_ne, Result, ok,
  throw, fault,
}
use mathlib.Core.Option.{some-injective}
use rsb_spread_cpp.Spread.{Env}
use rsb_spread_cpp.Connection.{new_connection}
use rsb_spread_cpp.GroupNameCache.{Naming}
use rsb_spread_cpp.Bus.{Dispatching, Bus, new_bus, connection}
use rsb_spread_cpp.Bus
use rsb_spread_cpp.Bus.Lifecycle.{IsConsistent}
use rsb_spread_cpp.Bus.Consistency.{activates, step, run, run-new_bus-IsConsistent}
use rsb_spread_cpp.Factory.{
  HostAndPort, HostAndPort_discrete, Factory, lock, keep_bus, create_bus, obtain_at, obtain_bus,
}
use rsb_spread_cpp.Factory.Sharing.{IsFor, IsKept, kept-IsRight, erase-IsRight, activate-IsKept}
use rsb_spread_cpp.Factory.Lifetimes.{
  Lives, daemon_of, IsExact, get_elem?-append_inv, Lives-slot, slot-Lives,
}

module _ {Sinks : Type 0} (o : HostAndPort) where
  -- No bus for this daemon lives.
  abbrev IsFree : Factory Sinks → Type 0
  IsFree f = (i : ℕ) (b : Bus Sinks) → Lives f i b → daemon_of b ≢ o

  IsFree-lookup :
      (f : Factory Sinks)
      → IsExact f
      → ((i : ℕ) → lookup HostAndPort_discrete o f.buses ≡ some i → lock f.heap i ≡ none)
      → IsFree f
  IsFree-lookup f v dead i b lives same =
      let gone =
        dead i (sym (ap (λ k. lookup HostAndPort_discrete k f.buses) same) ∙ v.known i b lives) in
      absurd (cc)

  Lives-kept :
      (f : Factory Sinks) (new : Bus Sinks) (i : ℕ) (b : Bus Sinks)
      → lock (f.heap ++ some new ∷ []) i ≡ some b
      → Lives f i b ⊎ ((i ≡ length f.heap) × (new ≡ b))
  Lives-kept f new i b e =
      elim (get_elem?-append_inv f.heap (some new) (some b) i
        (Lives-slot (f.heap ++ some new ∷ []) i b e)) [
          | inl old ↦ inl (slot-Lives f.heap i (some b) old)
          | inr (k, same) ↦ inr (k, some-injective _ _ same)
        ]

  module _ {Scope Sink : Type 0} (env : Env) (naming : Naming Scope)
      (dispatching : Dispatching Scope Sink Sinks) where
    erase-IsExact :
        (f : Factory Sinks)
        → IsFree f
        → IsExact f
        → IsExact (record f { buses = erase HostAndPort_discrete o f.buses })
    erase-IsExact f free v = record {
      right = erase-IsRight env naming dispatching o f v.right;
      known = λ i b lives.
          lookup-erase_ne HostAndPort_discrete (daemon_of b) o f.buses (free i b lives)
          ∙ v.known i b lives;
      consistent = v.consistent;
      closed = v.closed;
    }

    kept-IsExact :
        (f : Factory Sinks) (new : Bus Sinks)
        → IsFree f
        → IsFor o (some new)
        → IsConsistent new
        → IsExact f
        → IsExact (record f {
          buses = insert HostAndPort_discrete o (length f.heap) f.buses;
          heap = f.heap ++ some new ∷ [];
          ended = f.ended;
        })
    kept-IsExact f new free is_for consistent v = record {
      right = kept-IsRight env naming dispatching o new f is_for v.right;
      known = λ i b lives. elim (Lives-kept f new i b lives) [
        | inl old ↦
            lookup-insert_ne HostAndPort_discrete (daemon_of b) o (length f.heap) f.buses
              (free i b old)
            ∙ v.known i b old
        | inr (k, same) ↦
            let for_it : daemon_of b ≡ o =
              ap daemon_of (sym same) ∙ ap₂ (λ h p. (h, p)) is_for.0 is_for.1 in
            ap
              (λ k.
                lookup HostAndPort_discrete k
                  (insert HostAndPort_discrete o (length f.heap) f.buses))
              for_it
            ∙ lookup-insert_self HostAndPort_discrete o (length f.heap) f.buses
            ∙ ap some (sym k)
      ];
      consistent = λ i b lives. elim (Lives-kept f new i b lives) [
        | inl old ↦ v.consistent i b old
        | inr (k, same) ↦ subst IsConsistent same consistent
      ];
      closed = v.closed;
    }

    new_IsConsistent :
        IsConsistent
          (Bus.activate env (
            new_bus env naming dispatching
              (record { connection = new_connection env o.0 o.1; history = [] }))).1
    unfolding step run
    new_IsConsistent =
        run-new_bus-IsConsistent env naming dispatching (λ f. none) (activates ∷ []) o.0 o.1

    keep_bus-IsExact :
        (f : Factory Sinks) (r : Result (Unit {0}) × Bus Sinks)
        → IsKept env naming dispatching o r
        → IsConsistent r.1
        → IsFree f
        → IsExact f
        → IsExact (keep_bus env naming dispatching o r f).1
    keep_bus-IsExact f (ok _, b) kept consistent free v = kept-IsExact f b free kept consistent v
    keep_bus-IsExact f (throw e, b) kept consistent free v = v
    keep_bus-IsExact f (fault x, b) kept consistent free v = v

    pub obtain_bus-IsExact :
        (f : Factory Sinks) → IsExact f → IsExact (obtain_bus env naming dispatching o f).1
    unfolding obtain_bus obtain_at create_bus
    obtain_bus-IsExact f v = found (lookup HostAndPort_discrete o f.buses) refl
      where
        created :
            (f : Factory Sinks)
            → IsFree f
            → IsExact f
            → IsExact (create_bus env naming dispatching o f).1
        created f free v =
            keep_bus-IsExact f _ (activate-IsKept env naming dispatching o) new_IsConsistent free v

        alive :
            (i : ℕ) (s : Option (Bus Sinks))
            → lookup HostAndPort_discrete o f.buses ≡ some i
            → lock f.heap i ≡ s
            → let r : Result ℕ × Factory Sinks = elim s [
              | none ↦
                  create_bus env naming dispatching o
                    (record f { buses = erase HostAndPort_discrete o f.buses })
              | some b ↦ (ok i, f)
            ] in
              IsExact r.1
        alive i none h gone =
            let free = IsFree-lookup f v (λ j known.
              subst (λ k. lock f.heap k ≡ none) (some-injective _ _ (sym h ∙ known)) gone) in
            created _ free (erase-IsExact f free v)
        alive i (some b) h lives = v

        found :
            (k : Option ℕ)
            → lookup HostAndPort_discrete o f.buses ≡ k
            → IsExact (obtain_at env naming dispatching o k f).1
        found none h = created f (IsFree-lookup f v (λ i known. absurd (cc))) v
        found (some i) h = alive i (lock f.heap i) h refl
