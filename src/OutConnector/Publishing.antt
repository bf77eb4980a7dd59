-- ===== src/OutConnector/Publishing.antt =====
-- An event from its connector through the bus to the daemon and to the sinks of the process.
use rsb_spread_cpp.Base.{
  ℕ, ◌-◌, ◌≤◌, ◌≡◌, ◌⊎◌, inl, inr, refl, sym, subst, Option, length, All, Text, Result, ok, throw,
  fault, Action, zoom, settle, zoom->>=,
}
use rsb_spread_cpp.Spread.{Env}
use rsb_spread_cpp.Protocol.{Fragment}
use rsb_spread_cpp.Notifications.{Outgoing}
use rsb_spread_cpp.Connection.{Link}
use rsb_spread_cpp.GroupNameCache.{Naming, groups_of-fit, IsCoherent}
use rsb_spread_cpp.Bus.{
  Dispatching, Bus, connection, handle_outgoing, put_connection, send_notification,
}
use rsb_spread_cpp.Bus.Outbound.{Sent, Stopped, addressed, Transmits, send_notification-Transmits}
use rsb_spread_cpp.OutConnector.{Events, Connector, prepare, handle}
use rsb_spread_cpp.OutConnector.Cutting.{Fits}
use rsb_spread_cpp.OutConnector.Preparing.{Prepares, prepare-Prepares}

module _ {Scope Sink Sinks : Type 0} (env : Env) (naming : Naming Scope)
    (dispatching : Dispatching Scope Sink Sinks) (serialize : Fragment → Option Text) where
  -- Either all fragments were sent, and then the sinks were told, or the sending stopped, and
  -- then they were not. Nothing else of the bus changed.
  abbrev pub Publishes : Outgoing Scope → Bus Sinks → Result (Unit {0}) × Bus Sinks → Type 0
  Publishes o b (r, t) =
      ((Sent env serialize (length o.fragments) (addressed o) o.fragments (connection b)
            (connection t)
          × (dispatching.map_sinks o.scope o.base b.sinks ≡ (r, t.sinks)))
        ⊎ (Stopped env serialize (length o.fragments) (addressed o) r o.fragments (connection b)
              (connection t)
            × (t.sinks ≡ b.sinks)))
      × (t ≡ record (put_connection b (connection t)) { sinks = t.sinks })

  -- The end of `handleOutgoingNotification`.
  abbrev tell_sinks : Outgoing Scope → Unit {0} → Action (Bus Sinks) (Unit {0})
  tell_sinks o _ =
      zoom (λ b. b.sinks) (λ b s. record b { sinks = s }) (dispatching.map_sinks o.scope o.base)

  sent-Publishes :
      (o : Outgoing Scope) (b : Bus Sinks) (r : Result (Unit {0}) × Link)
      → Transmits env serialize o (connection b) r
      → Publishes o b (settle put_connection (tell_sinks o) b r)
  sent-Publishes o b (ok _, l) h = (inl (h, refl), refl)
  sent-Publishes o b (throw x, l) h = (inr (h, refl), refl)
  sent-Publishes o b (fault x, l) h = (inr (h, refl), refl)

  handle_outgoing-Publishes :
      (o : Outgoing Scope) (b : Bus Sinks)
      → All (λ g. length g ≤ env.max_group_name - 1) o.groups
      → Publishes o b (handle_outgoing env naming dispatching serialize o b)
  unfolding handle_outgoing
  handle_outgoing-Publishes o b fit =
      subst (Publishes o b)
        (sym
          (zoom->>= connection put_connection (send_notification env serialize o) (tell_sinks o) b))
        (sent-Publishes o b (send_notification env serialize o (connection b))
          (send_notification-Transmits env serialize o (connection b) fit))

module _ {Scope Event Sink Sinks : Type 0} (env : Env) (events : Events Scope Event)
    (naming : Naming Scope) (dispatching : Dispatching Scope Sink Sinks)
    (serialize : Fragment → Option Text) (c : Connector Scope) (b : Bus Sinks) (e : Event)
    (schema wire : Text) (fits : Fits env events c e schema wire) where
  -- The connector made a notification of the event, and the bus published it.
  pub record Handles (r : Result (Unit {0}) × (Connector Scope × Bus Sinks)) : Type 0 where
    pub outgoing : Outgoing Scope
    pub prepared : Prepares env events naming c e schema wire fits (ok outgoing, r.1.0)
    pub published : Publishes env naming dispatching serialize outgoing b (r.0, r.1.1)

  -- The end of `handle`.
  abbrev to_bus : Outgoing Scope → Action (Connector Scope × Bus Sinks) (Unit {0})
  to_bus o = zoom (λ s. s.1) (λ s t. (s.0, t)) (handle_outgoing env naming dispatching serialize o)

  prepared-Handles :
      (r : Result (Outgoing Scope) × Connector Scope)
      → Prepares env events naming c e schema wire fits r
      → Handles (settle (λ s d. (d, s.1)) to_bus (c, b) r)
  prepared-Handles (ok o, d) h = record {
    outgoing = o;
    prepared = h;
    published =
        handle_outgoing-Publishes env naming dispatching serialize o b
          (subst (All _) (sym h.1) (groups_of-fit env naming _));
  }
  prepared-Handles (throw x, d) h = absurd h
  prepared-Handles (fault x, d) h = absurd h

-- Where the cache of group names is right, the event can be serialized, and its fragments have
-- space, handling an event on a bus sends its payload, cut into numbered fragments within the
-- limit, one call for each fragment in their order, to exactly the groups of the event's scope
-- and its super-scopes, and then tells the sinks of this process, whose answer is the result. If
-- a fragment cannot be written or sent, that ends the call; exactly the fragments before it were
-- sent, and the sinks are not told. The connector's cache stays right, and nothing else of the
-- connector or the bus changes.
pub handle-Handles :
    {Scope Event Sink Sinks : Type 0} (env : Env) (events : Events Scope Event)
    (naming : Naming Scope) (dispatching : Dispatching Scope Sink Sinks)
    (serialize : Fragment → Option Text) (c : Connector Scope) (b : Bus Sinks) (now : ℕ)
    (event : Event) (schema wire : Text)
    → IsCoherent env naming c.group_name_cache
    → length c.group_name_cache ≤ 301
    → events.serialize (events.set_send_time now event) ≡ ok (schema, wire)
    → (fits : Fits env events c (events.set_send_time now event) schema wire)
    → Handles env events naming dispatching serialize c b
        (events.set_send_time now event)
        schema
        wire
        fits
        (handle env events
          (handle_outgoing env naming dispatching serialize)
          naming
          now
          event
          (c, b))
unfolding handle
handle-Handles env events naming dispatching serialize c b now event schema wire right few
      serialized fits =
    subst (Handles env events naming dispatching serialize c b _ schema wire fits)
      (sym (
        zoom->>= (λ s. s.0) (λ s d. (d, s.1)) (prepare env events naming now event)
          (to_bus env events naming dispatching serialize c b (events.set_send_time now event)
            schema wire fits)
          (c, b)))
      (prepared-Handles env events naming dispatching serialize c b _ schema wire fits
        (prepare env events naming now event c)
        (prepare-Prepares env events naming c now event schema wire right few serialized fits))
