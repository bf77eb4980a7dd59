-- ===== src/EndToEnd/Routing.antt =====
-- Which processes get an event: the groups that its connector sends it to, against the groups that
-- the connectors for receiving have joined.
use rsb_spread_cpp.Base.{
  ℕ, ◌-◌, ◌≤◌, ◌<◌, ◌≡◌, sym, ap, ◌∙◌, subst, inl, inr, true, false, take, Option, List, [], map,
  length, All, any, All-map, Text, ok,
}
use rsb_spread_cpp.Spread.{Call, Env}
use rsb_spread_cpp.Protocol.{Fragment}
use rsb_spread_cpp.Membership.{Membership}
use rsb_spread_cpp.Membership.Refining.{Implements}
use rsb_spread_cpp.Connection.{Link}
use rsb_spread_cpp.Connection.Delivery.{Whole}
use rsb_spread_cpp.EndToEnd.Calls.{made, made-onto, Sent-Carry, length-Carry, not_Stopped}
use rsb_spread_cpp.EndToEnd.Processes.{groups_for}
use rsb_spread_cpp.Membership.{uint_mod}
use rsb_spread_cpp.Membership.Refining.{Grants}
use rsb_spread_cpp.Bus
use rsb_spread_cpp.Bus.{Dispatching, Bus, connection, new_bus, handle_outgoing}
use rsb_spread_cpp.Bus.Outbound.{addressed, Sent, Stopped}
use rsb_spread_cpp.OutConnector.{Events, Connector, handle}
use rsb_spread_cpp.OutConnector.Cutting.{Fits, Delivers, cut_wire-Delivers}
use rsb_spread_cpp.Notifications.{Outgoing}
use rsb_spread_cpp.OutConnector.Publishing.{handle-Handles}
use rsb_spread_cpp.GroupNameCache.{IsCoherent}
use rsb_spread_cpp.InConnector.Shares.{ArePlain}
use rsb_spread_cpp.InConnector.Sharing.{Turn, run_turns, run_turns-Implements}
use rsb_spread_cpp.Message.Adding.{add_all}
use rsb_spread_cpp.GroupNameCache.{Naming, scope_to_group, groups_of}
use rsb_spread_cpp.InConnector.{InConnector}
use rsb_spread_cpp.InConnector.Shares.{total}
use rsb_spread_cpp.EndToEnd.Recipients.{reaches, wants, IsTold, reaches-wants, recipients-Carry}

-- Whose constants count: two processes with one limit for the names of groups.
groups_of-limit :
    {Scope : Type 0} (env there : Env) (naming : Naming Scope) (scope : Scope)
    → env.max_group_name ≡ there.max_group_name
    → groups_of env naming scope ≡ groups_of there naming scope
unfolding scope_to_group
groups_of-limit env there naming scope e =
    ap
      (λ n.
        map (λ s. take (n - 1) (naming.md5_hex (naming.to_string s)))
          (naming.super_scopes scope true))
      e

-- Calls that the daemon hands to a session exactly if one of its connectors wants the event.
abbrev pub Routes :
    {Scope Receiver : Type 0}
    → Env
    → Naming Scope
    → Scope
    → List (InConnector Scope Receiver)
    → Link
    → List Call
    → Type 0
Routes env naming scope cs session =
    All (λ call. reaches env session.history call ≡ any cs (wants env naming scope))

Sent-Routes :
    {Scope Receiver : Type 0} (env there : Env) (naming : Naming Scope)
    (serialize : Fragment → Option Text) (o : Outgoing Scope) (l k : Link) (scope : Scope)
    (s : Membership) (cs : List (InConnector Scope Receiver))
    → o.groups ≡ groups_of env naming scope
    → 1 ≤ length o.fragments
    → Sent env serialize (length o.fragments) (addressed o) o.fragments l k
    → Whole env (groups_for env naming scope)
    → env.max_group_name ≡ there.max_group_name
    → Implements there s (total there naming cs)
    → All (λ c. IsTold there naming c (naming.super_scopes scope true)) cs
    → (1 ≤ length (made l k)) × Routes there naming scope cs s.link (made l k)
Sent-Routes env there naming serialize o l k scope s cs same some_left sent whole limit v told =
    let (calls, h, carry) = Sent-Carry env serialize (length o.fragments) (addressed o) sent in
    let groups = ap (λ gs. add_all gs []) same in
    let there_too = ap (λ gs. add_all gs []) (groups_of-limit env there naming scope limit) in
    subst (λ calls. (1 ≤ length calls) × Routes there naming scope cs s.link calls)
      (sym (made-onto l k calls h))
      (
        subst (λ n. 1 ≤ n)
            (length-Carry env serialize (length o.fragments) (addressed o) o.fragments calls carry)
            some_left,
        All-map
            (λ call to. reaches-wants there naming call s cs scope v told (to ∙ groups ∙ there_too))
            calls
            (recipients-Carry env serialize (length o.fragments) (addressed o) o.fragments calls
              (subst (Whole env) (sym groups) whole) carry),
      )

-- An event that a connector handles on its bus and returns from goes to exactly the processes that
-- want it. Let another process have some connectors for receiving, fewer than 2^32 and all inactive
-- at first, on a new bus whose activation returns, and let them be activated and deactivated in any
-- order. Then each call that sends a part of the event, of which there is at least one, reaches the
-- session of that process exactly if one of these connectors is active and has the event's scope or
-- one of its super-scopes. This asks of the sender that its cache of group names is right, that the
-- event can be serialized and that its fragments have space; that both processes have one limit for
-- the names of groups, which hold no NUL byte, and that the scopes in question with the same group
-- are the same; and that the daemon joins and leaves as it is asked.
pub handle-Routes :
    {Scope Event Receiver Sink Sinks Sink' Sinks' : Type 0} (env there : Env)
    (events : Events Scope Event) (naming : Naming Scope)
    (dispatching : Dispatching Scope Sink Sinks) (serialize : Fragment → Option Text)
    (c : Connector Scope) (b : Bus Sinks) (now : ℕ) (event : Event) (schema wire : Text)
    (theirs : Dispatching Scope Sink' Sinks') (sink_at : ℕ → Sink') (turns : List Turn)
    (cs : List (InConnector Scope Receiver)) (l : Link)
    → let e = events.set_send_time now event in
      let r =
        handle env events
          (handle_outgoing env naming dispatching serialize)
          naming
          now
          event
          (c, b) in
      let calls = made (connection b) (connection r.1.1) in
      let opened = Bus.activate there (new_bus there naming theirs l) in
      let s = run_turns there naming theirs sink_at turns (cs, opened.1) in
      let scopes = naming.super_scopes (events.event_scope e) true in
      IsCoherent env naming c.group_name_cache
      → length c.group_name_cache ≤ 301
      → events.serialize e ≡ ok (schema, wire)
      → Fits env events c e schema wire
      → r.0 ≡ ok tt
      → Whole env (groups_for env naming (events.event_scope e))
      → env.max_group_name ≡ there.max_group_name
      → Grants there
      → All (λ c. c.active ≡ false) cs
      → ArePlain there naming cs
      → length cs < uint_mod
      → opened.0 ≡ ok tt
      → All (λ c. IsTold there naming c scopes) s.0
      → (1 ≤ length calls) × Routes there naming (events.event_scope e) s.0 (connection s.1) calls
handle-Routes env there events naming dispatching serialize c b now event schema wire theirs sink_at
      turns cs l right few serialized fits returned whole limit grants idle plain small on told =
    let e = events.set_send_time now event in
    let scope = events.event_scope e in
    let r =
      handle env events (handle_outgoing env naming dispatching serialize) naming now event
        (c, b) in
    let s =
      run_turns there naming theirs sink_at turns
        (cs, (Bus.activate there (new_bus there naming theirs l)).1) in
    let v =
      run_turns-Implements there naming theirs sink_at grants turns cs l idle plain small on in
    let hd =
      handle-Handles env events naming dispatching serialize c b now event schema wire right few
        serialized fits in
    let o = hd.outgoing in
    let some_left : 1 ≤ length o.fragments =
      (subst (Delivers env events c e schema wire fits) hd.prepared.8
        (cut_wire-Delivers env events c e schema wire fits)).1 in
    elim hd.published.0 [
      | inl (sent, _) ↦
          Sent-Routes env there naming serialize o (connection b) (connection r.1.1) scope
            s.1.memberships s.0 hd.prepared.1 some_left sent whole limit v told
      | inr (stopped, _) ↦ absurd (
          not_Stopped env serialize (length o.fragments) (addressed o) (
            subst
              (λ x.
                Stopped env serialize (length o.fragments) (addressed o) x o.fragments
                  (connection b) (connection r.1.1))
              returned stopped))
    ]
