-- ===== src/InConnector/Sharing.antt =====
-- Several connectors for receiving on one bus, and their calls in any order.
use rsb_spread_cpp.Base.{
  ℕ, zero, suc, ◌+◌, ◌<◌, ◌≡◌, refl, sym, ap, subst, false, List, [], ◌∷◌, arith, length, All, Text,
  c_str, ok,
}
use rsb_spread_cpp.Spread.{Env}
use rsb_spread_cpp.GroupNameCache.{Naming}
use rsb_spread_cpp.Membership.{Membership, uint_mod}
use rsb_spread_cpp.Membership.Refining.{
  Bag, Grants, Implements, Implements-same, activated-Implements,
}
use rsb_spread_cpp.Connection.{Link}
use rsb_spread_cpp.Bus
use rsb_spread_cpp.Bus.{Dispatching, Bus, new_bus}
use rsb_spread_cpp.InConnector.{InConnector}
use rsb_spread_cpp.InConnector.Connecting.{connect, disconnect}
use rsb_spread_cpp.InConnector.Shares.{
  group, share, total, ArePlain, share_le, total_le, total_idle, AreServed, Serves, connect-Serves,
  disconnect-Serves,
}

-- A call of a connector, and that of one of several, by its place.
pub data Change : Type 0 where
  connects disconnects : Change

abbrev pub Turn : Type 0
Turn = Change × ℕ

module _ {Scope Receiver Sink Sinks : Type 0} (env : Env) (naming : Naming Scope)
    (dispatching : Dispatching Scope Sink Sinks) (sink_at : ℕ → Sink) where
  -- The connector and the bus behind a call; an exception leaves them as the call left them.
  abbrev pub change :
      Change
      → Sink
      → InConnector Scope Receiver × Bus Sinks
      → InConnector Scope Receiver × Bus Sinks
  change connects sink s = (connect env naming dispatching sink s).1
  change disconnects sink s = (disconnect env naming dispatching sink s).1

  -- `n` is the place of the first of these connectors.
  unfoldable pub turn_at :
      Change
      → ℕ
      → ℕ
      → List (InConnector Scope Receiver) × Bus Sinks
      → List (InConnector Scope Receiver) × Bus Sinks
  turn_at u i n ([], b) = ([], b)
  turn_at u zero n (c ∷ cs, b) = let s = change u (sink_at n) (c, b) in (s.0 ∷ cs, s.1)
  turn_at u (suc i) n (c ∷ cs, b) = let s = turn_at u i (suc n) (cs, b) in (c ∷ s.0, s.1)

  unfoldable pub run_turns :
      List Turn
      → List (InConnector Scope Receiver) × Bus Sinks
      → List (InConnector Scope Receiver) × Bus Sinks
  run_turns [] s = s
  run_turns (t ∷ ts) s = run_turns ts (turn_at t.0 t.1 0 s)

  module _ (grants : Grants env) where
    change-Serves :
        (u : Change) (sink : Sink) (c : InConnector Scope Receiver) (b : Bus Sinks) (rest : Bag)
        → c_str (group env naming c) ≡ group env naming c
        → rest (group env naming c) + 1 < uint_mod
        → Serves env naming dispatching sink (group env naming c) rest (c, b)
        → Serves env naming dispatching sink (group env naming c) rest (change u sink (c, b))
    change-Serves connects sink c b rest plain small v =
        connect-Serves env naming dispatching sink grants c b rest plain small v
    change-Serves disconnects sink c b rest plain small v =
        disconnect-Serves env naming dispatching sink grants c b rest plain v

    turn_at-AreServed :
        (u : Change) (i n : ℕ) (rest : Bag) (cs : List (InConnector Scope Receiver)) (b : Bus Sinks)
        → ((h : Text) → rest h + length cs < uint_mod)
        → AreServed env naming (length cs) rest (cs, b)
        → AreServed env naming (length cs) rest (turn_at u i n (cs, b))
    unfolding turn_at
    turn_at-AreServed u i n rest [] b small v = v
    turn_at-AreServed u zero n rest (c ∷ cs) b small v =
        let others : Bag = λ h. total env naming cs h + rest h in
        let g = group env naming c in
        let (w, same) =
          change-Serves u (sink_at n) c b others v.plain.0
            (omega (arith, small g, total_le env naming cs g))
            (Implements-same env _ _ _ (λ h. omega arith) v.served, refl) in
        record {
          served = Implements-same env _ _ _ (λ h. omega arith) w;
          plain = (rw same v.plain.0, v.plain.1);
          many = refl;
        }
    turn_at-AreServed u (suc i) n rest (c ∷ cs) b small v =
        let others : Bag = λ h. share env naming c h + rest h in
        let w =
          turn_at-AreServed u i (suc n) others cs b
            (λ h. omega (arith, small h, share_le env naming c h))
            (record {
              served = Implements-same env _ _ _ (λ h. omega arith) v.served;
              plain = v.plain.1;
              many = refl;
            }) in
        record {
          served = Implements-same env _ _ _ (λ h. omega arith) w.served;
          plain = (v.plain.0, w.plain);
          many = ap suc w.many;
        }

    run_turns-AreServed :
        (ts : List Turn) (size : ℕ) (s : List (InConnector Scope Receiver) × Bus Sinks)
        → size < uint_mod
        → AreServed env naming size (λ h. 0) s
        → AreServed env naming size (λ h. 0) (run_turns ts s)
    unfolding run_turns
    run_turns-AreServed [] size s small v = v
    run_turns-AreServed (t ∷ ts) size (cs, b) small v =
        let e = v.many in
        run_turns-AreServed ts size (turn_at t.0 t.1 0 (cs, b)) small (
          subst (λ k. AreServed env naming k (λ h. 0) (turn_at t.0 t.1 0 (cs, b))) e
            (turn_at-AreServed t.0 t.1 0 (λ h. 0) cs b (λ h. omega (arith, e))
              (record { served = v.served; plain = v.plain; many = refl })))

    -- Let some inactive connectors for receiving, fewer than 2^32, be on a new bus whose
    -- activation returns, and let them be activated and deactivated in any order, also when they
    -- are active or inactive already. Then the manager of the groups counts for each group the
    -- connectors that are active with it, and the session is in exactly the groups that it counts
    -- uses of. This asks that the daemon joins and leaves as it is asked and that no name of
    -- their groups holds a NUL byte.
    pub run_turns-Implements :
        (ts : List Turn) (cs : List (InConnector Scope Receiver)) (l : Link)
        → All (λ c. c.active ≡ false) cs
        → ArePlain env naming cs
        → length cs < uint_mod
        → (Bus.activate env (new_bus env naming dispatching l)).0 ≡ ok tt
        → let s = run_turns ts (cs, (Bus.activate env (new_bus env naming dispatching l)).1) in
          Implements env s.1.memberships (total env naming s.0)
    unfolding Bus.activate new_bus
    run_turns-Implements ts cs l idle plain small on =
        let b = (Bus.activate env (new_bus env naming dispatching l)).1 in
        let v =
          run_turns-AreServed ts (length cs) (cs, b) small
            (record {
              served =
                  subst (λ (s : Membership). Implements env s (λ h. total env naming cs h + 0))
                    (ground arith)
                    (Implements-same env _ (λ g. 0) _ (λ h. sym (total_idle env naming cs idle h))
                      (activated-Implements env l (ground arith)));
              plain = plain;
              many = refl;
            }) in
        Implements-same env _ _ _ (λ h. omega arith) v.served
