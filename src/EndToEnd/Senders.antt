-- ===== src/EndToEnd/Senders.antt =====
-- A process that publishes events one after the other.
use rsb_spread_cpp.Base.{
  >>-returns, ◌>>◌, ◌≤◌, ◌≡◌, ◌≢◌, refl, sym, ap, ◌∙◌, subst, inl, inr, Option, List, [], ◌∷◌, ◌++◌,
  map, length, length-map, All, All-map, Text, Text_discrete, ok, Action, pure,
}
use rsb_spread_cpp.Spread.{Call, Env}
use rsb_spread_cpp.Protocol.{Fragment}
use rsb_spread_cpp.Message.Adding.{add_all, add_all-IsSorted}
use rsb_spread_cpp.Notifications.{Outgoing}
use rsb_spread_cpp.GroupNameCache.{Naming, groups_of, IsCoherent}
use rsb_spread_cpp.Connection.{Link}
use rsb_spread_cpp.Connection.Delivery.{Whole}
use rsb_spread_cpp.Pool.{Pool, key_of}
use rsb_spread_cpp.Bus.{Dispatching, Bus, connection, handle_outgoing, numbered}
use rsb_spread_cpp.Bus.Outbound.{addressed, Stopped}
use rsb_spread_cpp.OutConnector.{Events, Connector, handle, cut_wire}
use rsb_spread_cpp.OutConnector.Cutting.{Delivers, cut_wire-Cuts, cut_wire-Delivers}
use rsb_spread_cpp.OutConnector.Publishing.{handle-Handles}
use rsb_spread_cpp.EndToEnd.Traffic.{Tagged, with_key, completions, AllBring}
use rsb_spread_cpp.EndToEnd.Merging.{Apart, with_key_left}
use rsb_spread_cpp.EndToEnd.Gathering.{Gather, Merge-append, AllBring-append, Gather-Merge}
use rsb_spread_cpp.EndToEnd.Calls.{Sent-Carry, not_Stopped, Carry, onto, onto-append}
use rsb_spread_cpp.EndToEnd.Processes.{Cuts-key}
use rsb_spread_cpp.EndToEnd.Publications.{
  Publication, IsPublishable, IsWhole, Brought, tagged, untag, with_key_same, with_key_other,
  Carry-AllBring, one-Gather, completions_one, sent_event, told_of, write,
}

module _ {Scope Event Sink Sinks : Type 0} (env : Env) (events : Events Scope Event)
    (naming : Naming Scope) (dispatching : Dispatching Scope Sink Sinks)
    (serialize : Fragment → Text) where
  abbrev pub publish_one : Publication Scope Event → Action (Connector Scope × Bus Sinks) (Unit {0})
  publish_one p =
      handle env events (handle_outgoing env naming dispatching (write serialize)) naming p.now
        p.event

  -- The connector handles the events in their order.
  abbrev pub publish :
      List (Publication Scope Event) → Action (Connector Scope × Bus Sinks) (Unit {0})
  publish [] = pure tt
  publish (p ∷ ps) = publish_one p >> publish ps

module _ {Scope Event Sink Sinks : Type 0} (env : Env) (events : Events Scope Event)
    (naming : Naming Scope) (dispatching : Dispatching Scope Sink Sinks)
    (serialize : Fragment → Text) (parse : Text → Option Fragment) (pool : Pool) where
  -- The connector's cache is right.
  abbrev pub IsCached : Connector Scope → Type 0
  IsCached c = IsCoherent env naming c.group_name_cache × (length c.group_name_cache ≤ 301)

  abbrev pub Publishable : Connector Scope → Text → Publication Scope Event → Type 0
  Publishable = IsPublishable env events naming serialize parse pool

  module _ (c : Connector Scope) (b : Bus Sinks) (own : Text) (p : Publication Scope Event)
      (cached : IsCached c) (ready : Publishable c own p) where
    abbrev afterwards : Connector Scope × Bus Sinks
    afterwards = (publish_one env events naming dispatching serialize p (c, b)).1

    -- What handling one event leaves.
    record Publishes : Type 0 where
      calls : List Call
      called : (connection afterwards.1).history ≡ onto calls (connection b).history
      brings : Brought env events naming serialize parse pool own p calls
      still_cached : IsCached afterwards.0
      same_connector : afterwards.0 ≡ record c { group_name_cache = afterwards.0.group_name_cache }

    Sent-Brought :
        (o : Outgoing Scope)
        → o.groups ≡ groups_of env naming (events.event_scope (sent_event events p))
        → cut_wire env events c (sent_event events p) (p.schema, p.wire) ≡ ok o.fragments
        → (calls : List Call)
        → Carry env (write serialize) (length o.fragments) (addressed o) o.fragments calls
        → Brought env events naming serialize parse pool own p calls
    Sent-Brought o same cut calls carry =
        let e = sent_event events p in
        let w = write serialize in
        let size = length o.fragments in
        let fs = map (numbered env w size) o.fragments in
        let groups = ap (λ gs. add_all gs []) same in
        let keys : All (λ f. key_of f ≡ p.key) fs =
          Cuts-key env events serialize c e p.schema p.wire p.key size o.fragments 0 0
            ready.identified
            (cut_wire-Cuts env events c e p.schema p.wire ready.fits o.fragments cut) in
        let whole : IsWhole env events naming serialize parse pool p.key
            (tagged env events naming serialize parse pool p fs)
            (told_of env events naming serialize parse p) =
          record {
            publication = p;
            connector = c;
            cuts = o.fragments;
            fits = ready.fits;
            cut = cut;
            all_sent = untag env events naming serialize parse pool p fs;
            same_key = refl;
            same_told = refl;
            parsed = ready.parsed;
            titled = ready.titled;
            unknown = ready.unknown;
          } in
        record {
          pieces = fs;
          some_left =
              subst (λ n. 1 ≤ n) (sym (length-map (numbered env w size) o.fragments))
                (subst (Delivers env events c e p.schema p.wire ready.fits) cut
                  (cut_wire-Delivers env events c e p.schema p.wire ready.fits)).1;
          keys = keys;
          brought =
              Carry-AllBring env events naming serialize parse pool p own size (addressed o)
                o.fragments calls (add_all-IsSorted o.groups [] tt)
                (subst (Whole env) (sym groups) ready.whole)
                (λ alone. ready.other (sym groups ∙ alone)) carry;
          gathered =
              one-Gather env events naming serialize parse pool p.key _ p fs whole
                (with_key_same env events naming serialize parse pool p.key p fs keys) keys;
        }

    handle-Publishes :
        (publish_one env events naming dispatching serialize p (c, b)).0 ≡ ok tt → Publishes
    handle-Publishes returned =
        let e = sent_event events p in
        let hd =
          handle-Handles env events naming dispatching (write serialize) c b p.now p.event p.schema
            p.wire cached.0 cached.1 ready.serialized ready.fits in
        let o = hd.outgoing in
        elim hd.published.0 [
          | inl (sent, _) ↦
              let (calls, called, carry) =
                Sent-Carry env (write serialize) (length o.fragments) (addressed o) sent in
              record {
                calls = calls;
                called = called;
                brings = Sent-Brought o hd.prepared.1 hd.prepared.8 calls carry;
                still_cached = (hd.prepared.5, hd.prepared.6);
                same_connector = hd.prepared.7;
              }
          | inr (stopped, _) ↦ absurd (
              not_Stopped env (write serialize) (length o.fragments) (addressed o) (
                subst
                  (λ x.
                    Stopped env (write serialize) (length o.fragments) (addressed o) x o.fragments
                      (connection b) (connection afterwards.1))
                  returned stopped))
        ]

  Publishable-same :
      (c d : Connector Scope) (own : Text) (p : Publication Scope Event)
      → d ≡ record c { group_name_cache = d.group_name_cache }
      → Publishable c own p
      → Publishable d own p
  Publishable-same c d own p same ready =
      subst (λ d. Publishable d own p) (sym same)
        (record {
          serialized = ready.serialized;
          fits = record { headers = ready.fits.headers; small = ready.fits.small };
          identified = ready.identified;
          whole = ready.whole;
          other = ready.other;
          parsed = ready.parsed;
          titled = ready.titled;
          unknown = ready.unknown;
        })

  -- No two of them have one key.
  abbrev pub Differ : List (Publication Scope Event) → Type 0
  Differ [] = Unit {0}
  Differ (p ∷ ps) = All (λ q. q.key ≢ p.key) ps × Differ ps

  -- The calls for events that were published one after the other, and what they bring: all
  -- fragments of each event, and the last fragments in the order of the events.
  pub record Series (own : Text) (ps : List (Publication Scope Event)) (l k : Link) : Type 0 where
    pub calls : List Call
    pub called : k.history ≡ onto calls l.history
    pub pieces : List (Tagged Scope)
    pub brings : AllBring env serialize own calls pieces
    pub gathered : Gather (IsWhole env events naming serialize parse pool) pieces pieces
    pub told : completions pieces ≡ map (told_of env events naming serialize parse) ps
    pub only : (key : Text) → All (λ p. p.key ≢ key) ps → with_key key pieces ≡ []

  cons_Series :
      (own : Text) (p : Publication Scope Event) (ps : List (Publication Scope Event))
      (l j k : Link) (calls : List Call)
      → All (λ q. q.key ≢ p.key) ps
      → j.history ≡ onto calls l.history
      → Brought env events naming serialize parse pool own p calls
      → Series own ps j k
      → Series own (p ∷ ps) l k
  cons_Series own p ps l j k calls apart called v rest =
      let fs = tagged env events naming serialize parse pool p v.pieces in
      let no_more = rest.only p.key apart in
      let others = λ (key : Text) (ne : p.key ≢ key).
        with_key_other env events naming serialize parse pool p.key key p v.pieces ne v.keys in
      let apart_rest : Apart fs rest.pieces = λ key. elim (Text_discrete p.key key) [
        | yes e ↦ inr (subst (λ k. with_key k rest.pieces ≡ []) e no_more)
        | no ne ↦ inl (others key ne)
      ] in
      record {
        calls = calls ++ rest.calls;
        called = rest.called ∙ ap (onto rest.calls) called ∙ onto-append calls rest.calls l.history;
        pieces = fs ++ rest.pieces;
        brings =
            AllBring-append env serialize own calls rest.calls fs rest.pieces v.brought rest.brings;
        gathered =
            Gather-Merge (IsWhole env events naming serialize parse pool) fs rest.pieces
              (fs ++ rest.pieces) apart_rest (Merge-append fs rest.pieces) v.gathered rest.gathered;
        told =
            completions_one env events naming serialize parse pool p.key p v.pieces rest.pieces
              v.some_left v.keys no_more
            ∙ ap (◌∷◌ (told_of env events naming serialize parse p)) rest.told;
        only = λ key none_left.
            with_key_left key (Merge-append fs rest.pieces) (rest.only key none_left.1)
            ∙ others key none_left.0;
      }

  pub publish-Series :
      (own : Text) (ps : List (Publication Scope Event)) (c : Connector Scope) (b : Bus Sinks)
      → IsCached c
      → All (Publishable c own) ps
      → Differ ps
      → (publish env events naming dispatching serialize ps (c, b)).0 ≡ ok tt
      → Series own ps
          (connection b)
          (connection (publish env events naming dispatching serialize ps (c, b)).1.1)
  publish-Series own [] c b cached ready differ returned = record {
    calls = [];
    called = refl;
    pieces = [];
    brings = tt;
    gathered = tt;
    told = refl;
    only = λ key h. refl;
  }
  publish-Series own (p ∷ ps) c b cached ready differ returned =
      let (first, rest) =
        >>-returns (publish_one env events naming dispatching serialize p)
          (publish env events naming dispatching serialize ps) (c, b) returned in
      let v = handle-Publishes c b own p cached ready.0 first in
      let (d, b') = (publish_one env events naming dispatching serialize p (c, b)).1 in
      let w =
        publish-Series own ps d b' v.still_cached
          (All-map (λ q. Publishable-same c d own q v.same_connector) ps ready.1) differ.1
          (ap (λ r. r.0) (sym rest) ∙ returned) in
      subst (λ r. Series own (p ∷ ps) (connection b) (connection r.1.1)) (sym rest)
        (cons_Series own p ps (connection b) (connection b')
          (connection (publish env events naming dispatching serialize ps (d, b')).1.1) v.calls
          differ.0 v.called v.brings w)
