-- ===== src/InConnector/Connecting.antt =====
-- A connector for receiving on a bus: what it leaves there.
use rsb_spread_cpp.Base.{
  ◌+◌, ◌<◌, ◌≡◌, refl, sym, ap, subst, true, false, arith, Text, c_str, Exception, Result, ok,
  throw, fault,
}
use rsb_spread_cpp.Spread.{Env}
use rsb_spread_cpp.GroupNameCache.{Naming, scope_to_group}
use rsb_spread_cpp.ConnectorBase
use rsb_spread_cpp.Membership
use rsb_spread_cpp.Membership.Daemon
use rsb_spread_cpp.Membership.{Membership, uint_mod}
use rsb_spread_cpp.Membership.Counting.{uses, IsCounted, Leaves, leave-Leaves}
use rsb_spread_cpp.Membership.Daemon.{joins, leaves}
use rsb_spread_cpp.Membership.Refining.{
  Bag, use_bag, Grants, Implements, Implements-same, call-Implements,
}
use rsb_spread_cpp.Bus.{Dispatching, Bus, add_sink, remove_sink}
use rsb_spread_cpp.InConnector.{InConnector, activate, deactivate, destroy}

abbrev pub IsFault : Result (Unit {0}) → Type 0
IsFault (fault x) = Unit {0}
IsFault _ = ⊥

module _ {Scope Receiver Sink Sinks : Type 0} (env : Env) (naming : Naming Scope)
    (dispatching : Dispatching Scope Sink Sinks) (sink : Sink) where
  -- The connector's calls, with the connector as the sink.
  abbrev pub connect :
      InConnector Scope Receiver × Bus Sinks
      → Result (Unit {0}) × (InConnector Scope Receiver × Bus Sinks)
  connect = activate (λ scope. add_sink env naming dispatching scope sink)

  abbrev pub disconnect :
      InConnector Scope Receiver × Bus Sinks
      → Result (Unit {0}) × (InConnector Scope Receiver × Bus Sinks)
  disconnect = deactivate (λ scope. remove_sink env naming dispatching scope sink)

  abbrev pub destruct :
      InConnector Scope Receiver × Bus Sinks
      → Result (Unit {0}) × (InConnector Scope Receiver × Bus Sinks)
  destruct = destroy (λ scope. remove_sink env naming dispatching scope sink)

  abbrev pub group_of : InConnector Scope Receiver → Text
  group_of c = scope_to_group env naming c.scope

  -- How deactivating an active connector may end.
  abbrev pub Disconnects :
      InConnector Scope Receiver × Bus Sinks
      → Result (Unit {0}) × (InConnector Scope Receiver × Bus Sinks)
      → Type 0
  Disconnects s (r, t) =
      Leaves env (group_of s.0) s.1.memberships (r, t.1.memberships)
      × (t.1.sinks ≡ dispatching.remove_sink s.0.scope sink s.1.sinks)
      × (t.0.scope ≡ s.0.scope)

  disconnect-Disconnects :
      (c : InConnector Scope Receiver) (b : Bus Sinks)
      → c.active ≡ true
      → IsCounted b.memberships.groups
      → Disconnects (c, b) (disconnect (c, b))
  unfolding deactivate ConnectorBase.deactivate remove_sink
  disconnect-Disconnects c b on v = ground (arith, leave-Leaves env (group_of c) b.memberships v)

  stays_active :
      (c : InConnector Scope Receiver) (b : Bus Sinks) (x : Exception)
      → (disconnect (c, b)).0 ≡ throw x
      → (disconnect (c, b)).1.0 ≡ c
  unfolding deactivate ConnectorBase.deactivate remove_sink
  stays_active c b x h = ground arith

  destruct_active :
      (c : InConnector Scope Receiver) (b : Bus Sinks)
      → c.active ≡ true
      → destruct (c, b) ≡ disconnect (c, b)
  unfolding destroy
  destruct_active c b h = ground arith

  unused_IsFault :
      (c : InConnector Scope Receiver) (b : Bus Sinks)
      (r : Result (Unit {0}) × (InConnector Scope Receiver × Bus Sinks))
      → uses (group_of c) b.memberships ≡ 0
      → Disconnects (c, b) r
      → IsFault r.0
  unused_IsFault c b (ok _, t) none_left d = ground (arith, d.0.0.0)
  unused_IsFault c b (throw x, t) none_left d = ground (arith, d.0.2)
  unused_IsFault c b (fault x, t) none_left d = tt

  -- What a connector is after it could not leave its group.
  abbrev pub IsLeftOver :
      InConnector Scope Receiver → Bus Sinks → InConnector Scope Receiver × Bus Sinks → Type 0
  IsLeftOver c b s =
      (s.0.active ≡ true)
      × (s.1.sinks ≡ dispatching.remove_sink c.scope sink b.sinks)
      × (uses (group_of c) s.1.memberships ≡ 0)
      × IsFault (destruct s).0

  failed-IsLeftOver :
      (c : InConnector Scope Receiver) (b : Bus Sinks) (x : Exception)
      (r : Result (Unit {0}) × (InConnector Scope Receiver × Bus Sinks))
      → c.active ≡ true
      → r.0 ≡ throw x
      → r.1.0 ≡ c
      → Disconnects (c, b) r
      → IsLeftOver c b r.1
  failed-IsLeftOver c b x (ok _, t) on h same d = cc
  failed-IsLeftOver c b x (throw y, t) on h same d =
      let same_group : group_of t.0 ≡ group_of c =
        ap (λ (k : InConnector Scope Receiver). group_of k) same in
      let unused : uses (group_of t.0) t.1.memberships ≡ 0 =
        rw same_group (omega (arith, d.0.0.0, d.0.2)) in
      let active : t.0.active ≡ true = ground arith in
      (
        active,
        d.1,
        omega (arith, d.0.0.0, d.0.2),
        subst (λ (r : Result (Unit {0}) × (InConnector Scope Receiver × Bus Sinks)). IsFault r.0)
            (sym (destruct_active t.0 t.1 active))
            (unused_IsFault t.0 t.1 (disconnect t) unused
              (disconnect-Disconnects t.0 t.1 active d.0.1)),
      )
  failed-IsLeftOver c b x (fault y, t) on h same d = cc

  -- Let deactivating an active connector throw, as it does when the daemon does not confirm the
  -- leaving of a group that no other connector uses. Then the connector stays active although the
  -- bus has neither its sink nor its use of the group any more, and its destructor ends in a
  -- fault. This asks that the counts of the groups are sound.
  pub disconnect_failed :
      (c : InConnector Scope Receiver) (b : Bus Sinks) (x : Exception)
      → c.active ≡ true
      → IsCounted b.memberships.groups
      → (disconnect (c, b)).0 ≡ throw x
      → IsLeftOver c b (disconnect (c, b)).1
  disconnect_failed c b x on v h =
      failed-IsLeftOver c b x (disconnect (c, b)) on h (stays_active c b x h)
        (disconnect-Disconnects c b on v)

  pub connect_ok :
      (c : InConnector Scope Receiver) (b : Bus Sinks)
      → c.active ≡ false
      → (Membership.join env (group_of c) b.memberships).0 ≡ ok tt
      → connect (c, b) ≡ (
        ok tt,
        (
          record c { active = true },
          record b {
            memberships = (Membership.join env (group_of c) b.memberships).1;
            sinks = dispatching.add_sink c.scope sink b.sinks;
          },
        ),
      )
  unfolding activate ConnectorBase.activate add_sink
  connect_ok c b off h = ground arith

  pub disconnect_ok :
      (c : InConnector Scope Receiver) (b : Bus Sinks)
      → c.active ≡ true
      → (Membership.leave env (group_of c) b.memberships).0 ≡ ok tt
      → disconnect (c, b) ≡ (
        ok tt,
        (
          record c { active = false },
          record b {
            memberships = (Membership.leave env (group_of c) b.memberships).1;
            sinks = dispatching.remove_sink c.scope sink b.sinks;
          },
        ),
      )
  unfolding deactivate ConnectorBase.deactivate remove_sink
  disconnect_ok c b on h = ground arith

  -- What the results of `connect`, and of `disconnect` after it, are.
  abbrev pub Reconnects :
      InConnector Scope Receiver
      → Bus Sinks
      → Bag
      → Result (Unit {0}) × (InConnector Scope Receiver × Bus Sinks)
      → Result (Unit {0}) × (InConnector Scope Receiver × Bus Sinks)
      → Type 0
  Reconnects c b bag r s =
      (r.0 ≡ ok tt)
      × (r.1.0 ≡ record c { active = true })
      × (r.1.1.sinks ≡ dispatching.add_sink c.scope sink b.sinks)
      × Implements env r.1.1.memberships (use_bag (joins (group_of c)) bag)
      × (s.0 ≡ ok tt)
      × (s.1.0 ≡ c)
      × (s.1.1.sinks
          ≡ dispatching.remove_sink c.scope sink (dispatching.add_sink c.scope sink b.sinks))
      × Implements env s.1.1.memberships bag

  -- Where the manager of the groups implements a bag, the daemon joins and leaves as it is asked,
  -- the group's name holds no NUL byte and it is used fewer than 2^32 - 1 times, activating an
  -- inactive connector returns, adds its sink and one use of its scope's group to the bag;
  -- deactivating it then returns, removes the sink and leaves the connector and the bag as they
  -- were.
  pub disconnect-connect :
      (grants : Grants env) (c : InConnector Scope Receiver) (b : Bus Sinks) (bag : Bag)
      → c.active ≡ false
      → Implements env b.memberships bag
      → c_str (group_of c) ≡ group_of c
      → bag (group_of c) + 1 < uint_mod
      → Reconnects c b bag (connect (c, b)) (disconnect (connect (c, b)).1)
  unfolding Daemon.use_group
  disconnect-connect grants c b bag off v plain small =
      let g = group_of c in
      let (joined, w) = call-Implements env grants (joins g) b.memberships bag (small, plain) v in
      let c' = record c { active = true } in
      let b' = record b {
        memberships = (Membership.join env g b.memberships).1;
        sinks = dispatching.add_sink c.scope sink b.sinks;
      } in
      let (left, x) =
        call-Implements env grants (leaves g) b'.memberships (use_bag (joins g) bag)
          (ground arith, plain) w in
      let e : connect (c, b) ≡ (ok tt, (c', b')) = connect_ok c b off joined in
      let f = disconnect_ok c' b' refl left in
      subst (λ r. Reconnects c b bag r (disconnect r.1)) (sym e)
        (subst (Reconnects c b bag (ok tt, (c', b'))) (sym f) (
          refl,
          refl,
          refl,
          w,
          refl,
          ground arith,
          refl,
          Implements-same env _ (use_bag (leaves g) (use_bag (joins g) bag)) bag (λ h. ground arith)
              x,
        ))
