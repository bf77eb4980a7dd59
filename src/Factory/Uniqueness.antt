-- ===== src/Factory/Uniqueness.antt =====
-- src/rsb/transport/spread/{Factory,BusImpl}.cpp: a process has one bus for each daemon, as long as
-- someone holds it.
use rsb_spread_cpp.Base.{
  ℕ, ◌≡◌, refl, sym, ap, ◌∙◌, subst, Option, none, some, List, [], ◌∷◌, lookup, Text, ok,
}
use mathlib.Core.Option.{some-injective}
use rsb_spread_cpp.Spread.{Env}
use rsb_spread_cpp.Protocol.{Fragment}
use rsb_spread_cpp.GroupNameCache.{Naming}
use rsb_spread_cpp.Bus.{Dispatching, Bus, connection}
use rsb_spread_cpp.Bus.Lifecycle.{IsConsistent}
use rsb_spread_cpp.Bus.Consistency.{SameDaemon, step, step-IsConsistent}
use rsb_spread_cpp.Bus.Daemons.{step-SameDaemon}
use rsb_spread_cpp.Factory.{
  HostAndPort, HostAndPort_discrete, Factory, new_factory, parse_options, lock, obtain_bus,
  create_in_connector, create_out_connector,
}
use rsb_spread_cpp.Factory.Sharing.{IsFor, Shares, obtain_bus-Shares, again}
use rsb_spread_cpp.Factory.Lifetimes.{
  FactoryEvent, creates_in, creates_out, uses, lets_go, factory_step, factory_run, on_slot, Made,
  Lives, daemon_of, IsExact, change_slot-IsExact,
}
use rsb_spread_cpp.Factory.Creating.{obtain_bus-IsExact}
use rsb_spread_cpp.Base.{ℕ, All, false, arith, none, refl}
use rsb_spread_cpp.Bus
use rsb_spread_cpp.Bus.Lifecycle.{deactivate-Deactivates}
use rsb_spread_cpp.Factory.Lifetimes.{end_bus}

-- A live bus is the one that is given out for its daemon, so that there is no other; it agrees
-- with its connection; and whoever asks for a bus gets one that lives and is for that daemon, or
-- `CommException`.
pub record Shared {Scope Sink Sinks : Type 0} (env : Env) (naming : Naming Scope)
    (dispatching : Dispatching Scope Sink Sinks) (f : Factory Sinks) : Type 0 where
  pub given_out :
      (i : ℕ) (b : Bus Sinks)
      → Lives f i b
      → obtain_bus env naming dispatching (daemon_of b) f ≡ (ok i, f)
  pub single :
      (i j : ℕ) (b c : Bus Sinks) → Lives f i b → Lives f j c → daemon_of b ≡ daemon_of c → i ≡ j
  pub consistent : (i : ℕ) (b : Bus Sinks) → Lives f i b → IsConsistent b
  pub closed : All (λ b. (connection b).connected ≡ false) f.ended
  pub answers :
      (o : HostAndPort) → Shares env naming dispatching o (obtain_bus env naming dispatching o f)

destroy-closed :
    {Sinks : Type 0} (env : Env) (b : Bus Sinks)
    → IsConsistent b
    → (connection (Bus.destroy env b).1).connected ≡ false
unfolding Bus.destroy
destroy-closed env b v = ground (arith, deactivate-Deactivates env b v, v.agrees)

end_bus-IsExact :
    {Sinks : Type 0} (env : Env) (i : ℕ) (s : Option (Bus Sinks)) (f : Factory Sinks)
    → lock f.heap i ≡ s
    → IsExact f
    → IsExact (end_bus env i s f)
end_bus-IsExact env i none f e v = v
end_bus-IsExact env i (some b) f e v =
    let gone = change_slot-IsExact (λ s. none) i f (λ s b e. absurd (cc)) v in
    record {
      right = gone.right;
      known = gone.known;
      consistent = gone.consistent;
      closed = (destroy-closed env b (v.consistent i b e), v.closed);
    }

module _ {Scope Sink Sinks : Type 0} (env : Env) (naming : Naming Scope)
    (dispatching : Dispatching Scope Sink Sinks) (serialize : Fragment → Option Text)
    (root : Scope) where
  factory_step-IsExact :
      (e : FactoryEvent Scope Sink) (f : Factory Sinks)
      → IsExact f
      → IsExact (factory_step env naming dispatching serialize root e f)
  unfolding factory_step create_in_connector create_out_connector
  factory_step-IsExact (creates_in o) f v =
      obtain_bus-IsExact (parse_options env o) env naming dispatching f v
  factory_step-IsExact (creates_out o) f v =
      obtain_bus-IsExact (parse_options env o) env naming dispatching f v
  factory_step-IsExact (uses i o) f v =
      change_slot-IsExact (on_slot (step env naming dispatching serialize o)) i f makes v
    where
      makes :
          (s : Option (Bus Sinks)) (b : Bus Sinks)
          → on_slot (step env naming dispatching serialize o) s ≡ some b
          → Made (on_slot (step env naming dispatching serialize o)) s b
      makes none b e = absurd (cc)
      makes (some c) b e =
          let same = some-injective _ _ e in
          (
            c,
            refl,
            subst (λ b. SameDaemon (connection c) (connection b)) same
                (step-SameDaemon env naming dispatching serialize o c),
            λ v. subst IsConsistent same (step-IsConsistent env naming dispatching serialize o c v),
          )
  factory_step-IsExact (lets_go i) f v = end_bus-IsExact env i (lock f.heap i) f refl v

factory_run-IsExact :
    {Scope Sink Sinks : Type 0} (naming : Naming Scope) (dispatching : Dispatching Scope Sink Sinks)
    (serialize : Fragment → Option Text) (root : Scope) (es : List (Env × FactoryEvent Scope Sink))
    (f : Factory Sinks)
    → IsExact f
    → IsExact (factory_run naming dispatching serialize root es f)
unfolding factory_run
factory_run-IsExact naming dispatching serialize root [] f v = v
factory_run-IsExact naming dispatching serialize root ((env, e) ∷ es) f v =
    factory_run-IsExact naming dispatching serialize root es _
      (factory_step-IsExact env naming dispatching serialize root e f v)

IsExact-Shared :
    {Scope Sink Sinks : Type 0} (env : Env) (naming : Naming Scope)
    (dispatching : Dispatching Scope Sink Sinks) (f : Factory Sinks)
    → IsExact f
    → Shared env naming dispatching f
IsExact-Shared env naming dispatching f v = record {
  given_out = given;
  single = λ i j b c lives also same. v_single i j (
      sym (v.known i b lives)
      ∙ ap (λ k. lookup HostAndPort_discrete k f.buses) same
      ∙ v.known j c also);
  consistent = v.consistent;
  closed = v.closed;
  answers = λ o. obtain_bus-Shares env naming dispatching o f v.right;
}
  where
    v_single : (i j : ℕ) → some i ≡ some j → i ≡ j
    v_single i j e = some-injective _ _ e

    given :
        (i : ℕ) (b : Bus _)
        → Lives f i b
        → obtain_bus env naming dispatching (daemon_of b) f ≡ (ok i, f)
    given i b lives =
        again env naming dispatching (daemon_of b) i f
          (v.known i b lives, subst (IsFor (daemon_of b)) (sym lives) (refl, refl))

-- Whatever a process does with its factory, it has at most one bus for each daemon at a time.
-- From a new factory on, let connectors be created with any options, buses be used in any way and
-- let go, in any order, whatever the daemons answer in the meantime. Then each bus that lives is
-- the one that a connector for its daemon gets, without a new session; no two of them are for the
-- same daemon; each is active exactly while its connection is; those that were let go have no
-- session any more; and whoever asks for any daemon's bus gets one that lives and is for that daemon, and the same again if asked at once, or
-- `CommException`.
pub factory_run-Shared :
    {Scope Sink Sinks : Type 0} (env : Env) (naming : Naming Scope)
    (dispatching : Dispatching Scope Sink Sinks) (serialize : Fragment → Option Text) (root : Scope)
    (es : List (Env × FactoryEvent Scope Sink))
    → Shared env naming dispatching (factory_run naming dispatching serialize root es new_factory)
unfolding lock
factory_run-Shared env naming dispatching serialize root es =
    IsExact-Shared env naming dispatching _ (
      factory_run-IsExact naming dispatching serialize root es new_factory (record {
        right = λ o i e. absurd (cc);
        known = λ i b e. absurd (cc);
        consistent = λ i b e. absurd (cc);
        closed = tt;
      }))
