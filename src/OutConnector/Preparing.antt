-- ===== src/OutConnector/Preparing.antt =====
-- What the connector hands to the bus for an event.
use rsb_spread_cpp.Base.{
  ℕ, ◌≤◌, ◌≡◌, refl, sym, subst, List, [], ◌∷◌, arith, length, Text, Result, ok, throw, fault,
  and_then,
}
use rsb_spread_cpp.Spread.{Env}
use rsb_spread_cpp.Protocol.{Fragment}
use rsb_spread_cpp.Notifications.{Outgoing}
use rsb_spread_cpp.GroupNameCache.{
  Naming, scope_to_groups, groups_of, IsCoherent, Serves, scope_to_groups-Serves,
}
use rsb_spread_cpp.Assembly.Payload.{concat}
use rsb_spread_cpp.OutConnector.{Events, Connector, cut_wire, outgoing, prepare}
use rsb_spread_cpp.OutConnector.Cutting.{Fits, Delivers, AllSized, payloads, cut_wire-Delivers}

module _ {Scope Event : Type 0} (env : Env) (events : Events Scope Event) (naming : Naming Scope)
    (c : Connector Scope) (e : Event) (schema wire : Text)
    (fits : Fits env events c e schema wire) where
  -- The notification goes to the groups of the event's scope and its super-scopes, with the
  -- quality of service of the connector, and its fragments carry the payload.
  abbrev pub Prepares : Result (Outgoing Scope) × Connector Scope → Type 0
  Prepares (ok o, d) =
      (o.qos ≡ c.message_qos)
      × (o.groups ≡ groups_of env naming (events.event_scope e))
      × (o.wire_schema ≡ schema)
      × (concat (payloads o.fragments) ≡ wire)
      × AllSized env events c e schema wire fits 0 o.fragments
      × IsCoherent env naming d.group_name_cache
      × (length d.group_name_cache ≤ 301)
      × (d ≡ record c { group_name_cache = d.group_name_cache })
      × (cut_wire env events c e (schema, wire) ≡ ok o.fragments)
  Prepares (throw x, d) = ⊥
  Prepares (fault x, d) = ⊥

  prepared :
      (r : Result (List Fragment)) (g : List Text × List (Scope × List Text))
      → cut_wire env events c e (schema, wire) ≡ r
      → Delivers env events c e schema wire fits r
      → Serves env naming (events.event_scope e) g
      → Prepares (
        and_then r
            (λ fs. outgoing env events (events.event_scope e) c.message_qos g.0 schema wire fs),
        record c { group_name_cache = g.1 },
      )
  unfolding outgoing
  prepared (ok []) g cut h s = absurd (omega (arith, h.1))
  prepared (ok (f ∷ fs)) g cut h s = (refl, s.right, refl, h.0, h.2, s.coherent, s.few, refl, cut)
  prepared (throw x) g cut h s = h
  prepared (fault x) g cut h s = h

-- Where the cache of group names is right, the event can be serialized, and its fragments have
-- space, preparing an event succeeds: it gives a notification with the quality of service of the
-- connector, for exactly the groups of the event's scope and its super-scopes, whose fragments
-- are numbered, within the limit, carry the payload in their order and are those that it is cut
-- into. The cache stays right, and nothing else of the connector changes.
pub prepare-Prepares :
    {Scope Event : Type 0} (env : Env) (events : Events Scope Event) (naming : Naming Scope)
    (c : Connector Scope) (now : ℕ) (event : Event) (schema wire : Text)
    → IsCoherent env naming c.group_name_cache
    → length c.group_name_cache ≤ 301
    → events.serialize (events.set_send_time now event) ≡ ok (schema, wire)
    → (fits : Fits env events c (events.set_send_time now event) schema wire)
    → Prepares env events naming c
        (events.set_send_time now event)
        schema
        wire
        fits
        (prepare env events naming now event c)
unfolding prepare
prepare-Prepares env events naming c now event schema wire right few serialized fits =
    let e = events.set_send_time now event in
    subst
      (λ (r : Result (Text × Text)). Prepares env events naming c e schema wire fits (
        and_then r (λ s. and_then (cut_wire env events c e s) (λ fs.
            outgoing env events (events.event_scope e) c.message_qos
              (scope_to_groups env naming (events.event_scope e) c.group_name_cache).0 s.0 s.1 fs)),
        record c {
          group_name_cache =
              (scope_to_groups env naming (events.event_scope e) c.group_name_cache).1;
        },
      ))
      (sym serialized)
      (prepared env events naming c e schema wire fits (cut_wire env events c e (schema, wire))
        (scope_to_groups env naming (events.event_scope e) c.group_name_cache) refl
        (cut_wire-Delivers env events c e schema wire fits)
        (scope_to_groups-Serves env naming (events.event_scope e) c.group_name_cache right few))
