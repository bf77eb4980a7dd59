-- ===== src/EndToEnd/Processes.antt =====
-- From the connector of one process to the sinks of another.
use rsb_spread_cpp.Base.{
  ℕ, ◌+◌, ◌≤◌, ◌<◌, ◌^◌, ◌≡◌, ◌≢◌, inl, inr, refl, sym, ap, ◌∙◌, subst, true, none, some, Option,
  List, [], ◌∷◌, map, arith, length, length-map, All, Text, Text_discrete, lookup, ok,
}
use rsb_spread_cpp.Spread.{Env}
use rsb_spread_cpp.Protocol.{Fragment}
use rsb_spread_cpp.Message.Adding.{add_all}
use rsb_spread_cpp.Notifications.{Outgoing}
use rsb_spread_cpp.GroupNameCache.{Naming, groups_of, IsCoherent}
use rsb_spread_cpp.Connection.{Link}
use rsb_spread_cpp.Connection.Delivery.{Whole}
use rsb_spread_cpp.Pool.{key_of}
use rsb_spread_cpp.Deserializing.{transport}
use rsb_spread_cpp.Receiver.{Handler, Receiver}
use rsb_spread_cpp.Bus.{Dispatching, Bus, connection, handle_outgoing, numbered}
use rsb_spread_cpp.Bus.Outbound.{addressed, Sent, Stopped}
use rsb_spread_cpp.OutConnector.{Events, Connector, handle, populate, cut_wire}
use rsb_spread_cpp.OutConnector.Cutting.{Fits, Cuts, cut_wire-Cuts}
use rsb_spread_cpp.OutConnector.Publishing.{handle-Handles}
use rsb_spread_cpp.EndToEnd.Rounds.{HandsOn, rounds, rounds-cut_wire}
use rsb_spread_cpp.EndToEnd.Calls.{
  made, made-onto, Sent-Carry, length-Carry, not_Stopped, Handed, arrivals, Carry-Arrives,
  fragments-arrivals, times-arrivals, arrivals-All,
}
use mathlib.Core.List.{Permᴰ}

pub Permᴰ-refl : (fs : List Fragment) → Permᴰ fs fs
Permᴰ-refl [] = Permᴰ.nil
Permᴰ-refl (f ∷ fs) = Permᴰ.cons refl (Permᴰ-refl fs)

module _ {Scope Event : Type 0} (env : Env) (events : Events Scope Event)
    (serialize : Fragment → Text) (c : Connector Scope) (e : Event) (schema wire : Text) where
  -- Every fragment carries the event's identification.
  pub Cuts-key :
      (key : Text) (n : ℕ) (fs : List Fragment) (i offset : ℕ)
      → ((i : ℕ) → key_of (populate env events e schema i) ≡ key)
      → Cuts env events c e schema wire i offset fs
      → All (λ f. key_of f ≡ key) (map (numbered env (λ f. some (serialize f)) n) fs)
  unfolding key_of
  Cuts-key key n [] i offset ids h = tt
  Cuts-key key n (f ∷ fs) i offset ids h =
      (ap key_of h.0 ∙ ids i, Cuts-key key n fs (i + 1) _ ids h.1)

module _ {Scope Event H : Type 0} (env : Env) (events : Events Scope Event) (naming : Naming Scope)
    (serialize : Fragment → Text) (parse : Text → Option Fragment) (handler : Handler Scope H)
    (c : Connector Scope) (e : Event) (schema wire : Text) where
  Sent-HandsOn :
      (o : Outgoing Scope) (l k : Link) (scope : Scope) (key : Text) (ts : List ℕ) (s : Receiver H)
      → (round_trip : (f : Fragment) → parse (serialize f) ≡ some f)
      → Fits env events c e schema wire
      → cut_wire env events c e (schema, wire) ≡ ok o.fragments
      → Sent env (λ f. some (serialize f)) (length o.fragments) (addressed o) o.fragments l k
      → length ts ≡ length (made l k)
      → length ts < 2 ^ 32
      → Whole env (addressed o).groups
      → ((i : ℕ) → key_of (populate env events e schema i) ≡ key)
      → lookup Text_discrete key s.pool.assemblies ≡ none
      → Handed env naming parse serialize handler (made l k) s.link
      → (addressed o).groups ≢ s.link.private_group ∷ []
      → s.link.connected ≡ true
      → naming.parse_scope (populate env events e schema 0).notification.scope ≡ ok scope
      → let n = record (populate env events e schema 0).notification { payload = wire } in
        (handler.handle_incoming (transport env naming parse n scope) s.handled).0 ≡ ok tt
        → HandsOn env naming parse serialize handler
            (transport env naming parse n scope)
            (length ts)
            s
            (rounds env naming parse serialize handler ts s)
  Sent-HandsOn o l k scope key ts s round_trip fits cut sent count small whole ids free handed other
        on parsed told =
      let n = record (populate env events e schema 0).notification { payload = wire } in
      let write : Fragment → Option Text = λ f. some (serialize f) in
      let size = length o.fragments in
      let fs = map (numbered env write size) o.fragments in
      let (cs, h, carry) = Sent-Carry env write size (addressed o) sent in
      let calls = made-onto l k cs h in
      let cs_size : length ts ≡ size =
        count
        ∙ ap length calls
        ∙ sym (length-Carry env write size (addressed o) o.fragments cs carry) in
      let fs_size : length ts ≡ length fs = cs_size ∙ sym (length-map _ o.fragments) in
      let es = arrivals env naming parse serialize handler ts fs in
      let es_times = times-arrivals env naming parse serialize handler ts fs fs_size in
      let es_fragments = fragments-arrivals env naming parse serialize handler ts fs fs_size in
      let es_size : length es ≡ length ts = sym (length-map (λ a. a.0) es) ∙ ap length es_times in
      let r =
        rounds-cut_wire env events naming serialize parse handler c e schema wire o l scope key es s
          round_trip fits cut (omega (arith, cs_size)) whole free
          (subst (Permᴰ fs) (sym es_fragments) (Permᴰ-refl fs))
          (arrivals-All env naming parse serialize handler (λ f. key_of f ≡ key) ts fs
            (Cuts-key env events serialize c e schema wire key size o.fragments 0 0 ids
              (cut_wire-Cuts env events c e schema wire fits o.fragments cut)))
          (Carry-Arrives env naming parse serialize handler size (addressed o) l ts o.fragments cs
            s.link carry
            (subst (λ ds. Handed env naming parse serialize handler ds s.link) calls handed))
          other on parsed told in
      subst
        (λ k.
          HandsOn env naming parse serialize handler (transport env naming parse n scope) k s
            (rounds env naming parse serialize handler ts s))
        es_size
        (subst
          (λ ts.
            HandsOn env naming parse serialize handler (transport env naming parse n scope)
              (length es) s (rounds env naming parse serialize handler ts s))
          es_times r)

-- The groups that the message of an event is for, as a set.
abbrev pub groups_for : {Scope : Type 0} → Env → Naming Scope → Scope → List Text
groups_for env naming scope = add_all (groups_of env naming scope) []

-- Let the connector of one process handle an event on its bus and return, with fewer than 2^32
-- calls of the client library, and let the daemon hand over these calls, in their order and with
-- no other between, to the receiver of another process. Then as many rounds of that receiver, at
-- any times, return, and what they have called is its handler, exactly once, with the payload
-- that the sender's converter wrote and the scope of the event; the receiver's session stays,
-- each round made one call, and the task is cancelled only if it was. This asks of the sender
-- that its cache of group names is right, that the event can be serialized, that the meta data
-- leave more than the minimal space in every fragment and no size wraps around, and that every
-- fragment carries the event's identification; of the receiver that its pool holds nothing under
-- that identification, that the message is not for its private group alone, that the scope can
-- be parsed and that the handler returns; that what is written of a fragment is read back; and
-- that no group name is too long or holds a NUL byte.
pub rounds-handle :
    {Scope Event Sink Sinks H : Type 0} (env : Env) (events : Events Scope Event)
    (naming : Naming Scope) (dispatching : Dispatching Scope Sink Sinks)
    (serialize : Fragment → Text) (parse : Text → Option Fragment) (handler : Handler Scope H)
    (c : Connector Scope) (b : Bus Sinks) (now : ℕ) (event : Event) (schema wire : Text)
    (scope : Scope) (key : Text) (ts : List ℕ) (s : Receiver H)
    → let e = events.set_send_time now event in
      let write : Fragment → Option Text = λ f. some (serialize f) in
      let r =
        handle env events (handle_outgoing env naming dispatching write) naming now event (c, b) in
      let calls = made (connection b) (connection r.1.1) in
      let n = record (populate env events e schema 0).notification { payload = wire } in
      (round_trip : (f : Fragment) → parse (serialize f) ≡ some f)
      → IsCoherent env naming c.group_name_cache
      → length c.group_name_cache ≤ 301
      → events.serialize e ≡ ok (schema, wire)
      → Fits env events c e schema wire
      → r.0 ≡ ok tt
      → length ts ≡ length calls
      → length ts < 2 ^ 32
      → Whole env (groups_for env naming (events.event_scope e))
      → ((i : ℕ) → key_of (populate env events e schema i) ≡ key)
      → lookup Text_discrete key s.pool.assemblies ≡ none
      → Handed env naming parse serialize handler calls s.link
      → groups_for env naming (events.event_scope e) ≢ s.link.private_group ∷ []
      → s.link.connected ≡ true
      → naming.parse_scope n.scope ≡ ok scope
      → (handler.handle_incoming (transport env naming parse n scope) s.handled).0 ≡ ok tt
      → HandsOn env naming parse serialize handler
          (transport env naming parse n scope)
          (length ts)
          s
          (rounds env naming parse serialize handler ts s)
rounds-handle env events naming dispatching serialize parse handler c b now event schema wire scope
      key ts s round_trip right few serialized fits returned count small whole ids free handed other
      on parsed told =
    let e = events.set_send_time now event in
    let write : Fragment → Option Text = λ f. some (serialize f) in
    let after =
      connection
        (handle env events (handle_outgoing env naming dispatching write) naming now event
          (c, b)).1.1 in
    let hd =
      handle-Handles env events naming dispatching write c b now event schema wire right few
        serialized fits in
    let o = hd.outgoing in
    let same : o.groups ≡ groups_of env naming (events.event_scope e) = hd.prepared.1 in
    let groups = ap (λ gs. add_all gs []) same in
    elim hd.published.0 [
      | inl (sent, _) ↦
          Sent-HandsOn env events naming serialize parse handler c e schema wire o (connection b) _
            scope key ts s round_trip fits hd.prepared.8 sent count small
            (subst (Whole env) (sym groups) whole) ids free handed
            (λ alone. other (sym groups ∙ alone)) on parsed told
      | inr (stopped, _) ↦ absurd (
          not_Stopped env write (length o.fragments) (addressed o) (
            subst
              (λ x.
                Stopped env write (length o.fragments) (addressed o) x o.fragments (connection b)
                  after)
              returned stopped))
    ]
