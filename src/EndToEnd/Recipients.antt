-- ===== src/EndToEnd/Recipients.antt =====
-- The groups that a call sends to, against those that the connectors for receiving have joined.
use rsb_spread_cpp.Base.{
  ℕ, ◌+◌, ◌≡◌, refl, ap, ap₂, ◌∙◌, ite, Bool, true, false, ◌&&◌, ◌||◌, Option, some, List, [], ◌∷◌,
  arith, ltb, All, any, any-or, any-and, any-map, Text, text_ltb_total,
}
use mathlib.Core.Path.{fun_ext}
use rsb_spread_cpp.Spread.{Call, multicast, multigroup_multicast, History, Env}
use rsb_spread_cpp.Protocol.{Fragment}
use rsb_spread_cpp.Message.{Message, insert_set, set_data}
use rsb_spread_cpp.Membership.{Membership}
use rsb_spread_cpp.Membership.Refining.{Implements}
use rsb_spread_cpp.Connection.{Link}
use rsb_spread_cpp.Connection.Sending.{transmission}
use rsb_spread_cpp.Connection.Delivery.{Whole, map-c_str}
use rsb_spread_cpp.EndToEnd.Calls.{Carry}
use rsb_spread_cpp.Message.Adding.{add_all}
use rsb_spread_cpp.GroupNameCache.{Naming, scope_to_group, groups_of}
use rsb_spread_cpp.Membership.Daemon.{member}
use rsb_spread_cpp.InConnector.{InConnector}
use rsb_spread_cpp.InConnector.Shares.{share, total}

ltb-add : (a b : ℕ) → ltb 0 (a + b) ≡ (ltb 0 a || ltb 0 b)
ltb-add a b = ground arith

any-insert_set :
    (p : Text → Bool) (x : Text) (gs : List Text) → any (insert_set x gs) p ≡ (p x || any gs p)
unfolding insert_set
any-insert_set p x [] = refl
any-insert_set p x (g ∷ gs) = ground (arith, any-insert_set p x gs, text_ltb_total x g)

any-add_all : (p : Text → Bool) (xs gs : List Text) → any (add_all xs gs) p ≡ (any xs p || any gs p)
any-add_all p [] gs = refl
any-add_all p (x ∷ xs) gs =
    ground (arith, any-add_all p xs (insert_set x gs), any-insert_set p x gs)

-- The groups that a call sends to.
abbrev pub recipients : Call → List Text
recipients (multicast b s g d) = g ∷ []
recipients (multigroup_multicast b s gs d) = gs
recipients _ = []

-- Whether the daemon hands what the call sends to the session with this history: whether the
-- session is in one of the groups.
abbrev pub reaches : Env → History → Call → Bool
reaches env h c = any (recipients c) (member env h)

module _ {Scope Receiver : Type 0} (env : Env) (naming : Naming Scope) where
  -- Whether the connector is to get events of a scope: it is active, and its scope is the event's
  -- or one of its super-scopes.
  abbrev pub wants : Scope → InConnector Scope Receiver → Bool
  wants scope c =
      c.active
      && any (naming.super_scopes scope true)
          (λ s. ite (naming.scope_discrete c.scope s) true false)

  -- The groups of the connector's scope and of these scopes are the same only if the scopes are.
  abbrev pub IsTold : InConnector Scope Receiver → List Scope → Type 0
  IsTold c =
      All (λ s. scope_to_group env naming c.scope ≡ scope_to_group env naming s → c.scope ≡ s)

  any-share :
      (c : InConnector Scope Receiver) (scopes : List Scope)
      → IsTold c scopes
      → any scopes (λ s. ltb 0 (share env naming c (scope_to_group env naming s)))
        ≡ (c.active && any scopes (λ s. ite (naming.scope_discrete c.scope s) true false))
  any-share c [] told = ground arith
  any-share c (s ∷ scopes) told = ground (arith, any-share c scopes told.1, told.0)

  any-total :
      (cs : List (InConnector Scope Receiver)) (scopes : List Scope)
      → All (λ c. IsTold c scopes) cs
      → any scopes (λ s. ltb 0 (total env naming cs (scope_to_group env naming s)))
        ≡ any cs
            (λ c. c.active && any scopes (λ s. ite (naming.scope_discrete c.scope s) true false))
  any-total [] scopes told = any-and false (λ s. false) scopes
  any-total (c ∷ cs) scopes told =
      ap (any scopes) (
        fun_ext (λ s.
          ltb-add (share env naming c (scope_to_group env naming s))
            (total env naming cs (scope_to_group env naming s))))
      ∙ any-or (λ s. ltb 0 (share env naming c (scope_to_group env naming s)))
          (λ s. ltb 0 (total env naming cs (scope_to_group env naming s))) scopes
      ∙ ap₂ ◌||◌ (any-share c scopes told.0) (any-total cs scopes told.1)

  -- The groups that an event is sent to, against those that the connectors have joined.
  pub reaches-wants :
      (call : Call) (s : Membership) (cs : List (InConnector Scope Receiver)) (scope : Scope)
      → Implements env s (total env naming cs)
      → All (λ c. IsTold c (naming.super_scopes scope true)) cs
      → recipients call ≡ add_all (groups_of env naming scope) []
      → reaches env s.link.history call ≡ any cs (wants scope)
  reaches-wants call s cs scope v told same =
      let scopes = naming.super_scopes scope true in
      let joined : Text → Bool = λ g. ltb 0 (total env naming cs g) in
      ap (any (recipients call)) (fun_ext v.inside)
      ∙ ap (λ gs. any gs joined) same
      ∙ any-add_all joined (groups_of env naming scope) []
      ∙ or_false (any (groups_of env naming scope) joined)
      ∙ any-map (scope_to_group env naming) joined scopes
      ∙ any-total cs scopes told
    where
      or_false : (b : Bool) → (b || false) ≡ b
      or_false b = ground arith

module _ (env : Env) where
  recipients-transmission :
      (l : Link) (m : Message) (gs : List Text) (call : Call)
      → Whole env gs
      → transmission env l m gs ≡ some call
      → recipients call ≡ gs
  recipients-transmission l m [] call w e = cc
  recipients-transmission l m (g ∷ []) call w e = ground (arith, w.0.0)
  recipients-transmission l m (g ∷ h ∷ gs) call w e = ground (arith, map-c_str env (g ∷ h ∷ gs) w)

  pub recipients-Carry :
      (serialize : Fragment → Option Text) (n : ℕ) (m : Message) (fs : List Fragment)
      (calls : List Call)
      → Whole env m.groups
      → Carry env serialize n m fs calls
      → All (λ call. recipients call ≡ m.groups) calls
  recipients-Carry serialize n m [] [] w v = tt
  recipients-Carry serialize n m [] (c ∷ cs) w v = absurd v
  recipients-Carry serialize n m (f ∷ fs) [] w v = absurd v
  recipients-Carry serialize n m (f ∷ fs) (c ∷ cs) w ((l, d, e, sent), v) = (
    recipients-transmission l (set_data d m) m.groups c w sent,
    recipients-Carry serialize n m fs cs w v,
  )
