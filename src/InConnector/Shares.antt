-- ===== src/InConnector/Shares.antt =====
-- The uses of the groups that the connectors on a bus stand for.
use rsb_spread_cpp.Base.{
  ℕ, ◌+◌, ◌≤◌, ◌<◌, ◌≡◌, refl, sym, subst, inl, inr, ite, true, false, Bool-cases, if◌then◌else◌,
  List, [], ◌∷◌, arith, length, All, Text, Text_discrete, c_str,
}
use rsb_spread_cpp.Spread.{Env}
use rsb_spread_cpp.GroupNameCache.{Naming, scope_to_group}
use rsb_spread_cpp.ConnectorBase
use rsb_spread_cpp.Membership.{uint_mod}
use rsb_spread_cpp.Membership.Daemon
use rsb_spread_cpp.Membership.Daemon.{joins, leaves}
use rsb_spread_cpp.Membership.Refining.{
  Bag, use_bag, Grants, Implements, Implements-same, call-Implements,
}
use rsb_spread_cpp.Bus.{Dispatching, Bus}
use rsb_spread_cpp.InConnector.{InConnector, activate, deactivate}
use rsb_spread_cpp.InConnector.Connecting.{connect, disconnect, connect_ok, disconnect_ok}

module _ {Scope Receiver : Type 0} (env : Env) (naming : Naming Scope) where
  abbrev pub group : InConnector Scope Receiver → Text
  group c = scope_to_group env naming c.scope

  -- The uses of a group that a connector stands for: one of its own group while it is active.
  abbrev pub share : InConnector Scope Receiver → Bag
  share c h = if c.active then ite (Text_discrete h (group c)) 1 0 else 0

  abbrev pub total : List (InConnector Scope Receiver) → Bag
  total [] h = 0
  total (c ∷ cs) h = share c h + total cs h

  -- No name of a group holds a NUL byte.
  abbrev pub ArePlain : List (InConnector Scope Receiver) → Type 0
  ArePlain = All (λ c. c_str (group c) ≡ group c)

  pub share_le : (c : InConnector Scope Receiver) (h : Text) → share c h ≤ 1
  share_le c h = ground arith

  pub total_le : (cs : List (InConnector Scope Receiver)) (h : Text) → total cs h ≤ length cs
  total_le [] h = omega arith
  total_le (c ∷ cs) h = omega (arith, share_le c h, total_le cs h)

  pub total_idle :
      (cs : List (InConnector Scope Receiver))
      → All (λ c. c.active ≡ false) cs
      → (h : Text) → total cs h + 0 ≡ 0
  total_idle [] idle h = refl
  total_idle (c ∷ cs) idle h = ground (arith, idle.0, total_idle cs idle.1 h)

  -- So many connectors with the rest of the uses, on a bus.
  pub record AreServed {Sinks : Type 0} (size : ℕ) (rest : Bag)
      (s : List (InConnector Scope Receiver) × Bus Sinks) : Type 0 where
    pub served : Implements env s.1.memberships (λ h. total s.0 h + rest h)
    pub plain : ArePlain s.0
    pub many : length s.0 ≡ size

module _ {Scope Receiver Sink Sinks : Type 0} (env : Env) (naming : Naming Scope)
    (dispatching : Dispatching Scope Sink Sinks) (sink : Sink) where
  connect_active :
      (c : InConnector Scope Receiver) (b : Bus Sinks)
      → c.active ≡ true
      → (connect env naming dispatching sink (c, b)).1 ≡ (c, b)
  unfolding activate ConnectorBase.activate
  connect_active c b h = ground arith

  disconnect_inactive :
      (c : InConnector Scope Receiver) (b : Bus Sinks)
      → c.active ≡ false
      → (disconnect env naming dispatching sink (c, b)).1 ≡ (c, b)
  unfolding deactivate ConnectorBase.deactivate
  disconnect_inactive c b h = ground arith

  -- A connector and the rest of the uses, on a bus.
  abbrev pub Serves : Text → Bag → InConnector Scope Receiver × Bus Sinks → Type 0
  Serves g rest s =
      Implements env s.1.memberships (λ h. share env naming s.0 h + rest h)
      × (group env naming s.0 ≡ g)

  pub connect-Serves :
      (grants : Grants env) (c : InConnector Scope Receiver) (b : Bus Sinks) (rest : Bag)
      → c_str (group env naming c) ≡ group env naming c
      → rest (group env naming c) + 1 < uint_mod
      → Serves (group env naming c) rest (c, b)
      → Serves (group env naming c) rest (connect env naming dispatching sink (c, b)).1
  unfolding Daemon.use_group
  connect-Serves grants c b rest plain small v = elim (Bool-cases c.active) [
    | inl on ↦ subst (Serves (group env naming c) rest) (sym (connect_active c b on)) v
    | inr off ↦
        let bag : Bag = λ h. share env naming c h + rest h in
        let (joined, w) =
          call-Implements env grants (joins (group env naming c)) b.memberships bag
            (ground arith, plain) v.0 in
        subst (λ r. Serves (group env naming c) rest r.1)
          (sym (connect_ok env naming dispatching sink c b off joined))
          (
            Implements-same env _ (use_bag (joins (group env naming c)) bag) _ (λ h. ground arith)
                w,
            refl,
          )
  ]

  pub disconnect-Serves :
      (grants : Grants env) (c : InConnector Scope Receiver) (b : Bus Sinks) (rest : Bag)
      → c_str (group env naming c) ≡ group env naming c
      → Serves (group env naming c) rest (c, b)
      → Serves (group env naming c) rest (disconnect env naming dispatching sink (c, b)).1
  unfolding Daemon.use_group
  disconnect-Serves grants c b rest plain v = elim (Bool-cases c.active) [
    | inr off ↦ subst (Serves (group env naming c) rest) (sym (disconnect_inactive c b off)) v
    | inl on ↦
        let bag : Bag = λ h. share env naming c h + rest h in
        let (left, w) =
          call-Implements env grants (leaves (group env naming c)) b.memberships bag
            (ground arith, plain) v.0 in
        subst (λ r. Serves (group env naming c) rest r.1)
          (sym (disconnect_ok env naming dispatching sink c b on left))
          (
            Implements-same env _ (use_bag (leaves (group env naming c)) bag) _ (λ h. ground arith)
                w,
            refl,
          )
  ]
