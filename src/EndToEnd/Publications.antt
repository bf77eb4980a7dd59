-- ===== src/EndToEnd/Publications.antt =====
-- Events that a process publishes one after the other, and the fragments that its calls bring.
use rsb_spread_cpp.Base.{
  ℕ, ◌≤◌, ◌≡◌, ◌≢◌, refl, sym, ap, ◌∙◌, subst, if_pos, if_neg, ◌==◌, if◌then◌else◌, Option, none,
  some, List, [], ◌∷◌, ◌++◌, map, arith, length, All, Text, Text_discrete, lookup, ok,
}
use rsb_spread_cpp.Spread.{Call, Env}
use rsb_spread_cpp.Protocol.{Notification, Fragment}
use rsb_spread_cpp.Message.{Message, set_data}
use rsb_spread_cpp.Message.Groups.{IsSorted}
use rsb_spread_cpp.Notifications.{Transported}
use rsb_spread_cpp.GroupNameCache.{Naming}
use rsb_spread_cpp.Connection.Sending.{transmission}
use rsb_spread_cpp.Connection.Delivery.{Whole}
use rsb_spread_cpp.Pool.{Pool, key_of}
use rsb_spread_cpp.Bus.{numbered}
use rsb_spread_cpp.OutConnector.{Events, Connector, populate, cut_wire, blank_notification}
use rsb_spread_cpp.OutConnector.Cutting.{Fits}
use rsb_spread_cpp.EndToEnd.Traffic.{Tagged, with_key, completions, AllBring}
use rsb_spread_cpp.EndToEnd.Gathering.{Gather}
use rsb_spread_cpp.EndToEnd.Calls.{Carry}
use rsb_spread_cpp.EndToEnd.Processes.{groups_for}

-- An event, the time at which it is sent, what the converter makes of it, and the key of its
-- fragments.
pub record Publication (Scope Event : Type 0) : Type 0 where
  pub now : ℕ
  pub event : Event
  pub schema : Text
  pub wire : Text
  pub key : Text

-- The event as it is sent.
abbrev pub sent_event :
    {Scope Event : Type 0} → Events Scope Event → Publication Scope Event → Event
sent_event events p = events.set_send_time p.now p.event

-- Writing a fragment does not fail.
abbrev pub write : (Fragment → Text) → Fragment → Option Text
write serialize f = some (serialize f)

module _ {Scope Event : Type 0} (env : Env) (events : Events Scope Event) (naming : Naming Scope)
    (serialize : Fragment → Text) (parse : Text → Option Fragment) where
  -- What the core library's `fillNotificationId` and `fillNotificationHeader` write of it.
  abbrev pub header_of : Publication Scope Event → Notification
  header_of p =
      let e = sent_event events p in
      events.fill_header e p.schema (events.fill_id e blank_notification)

  abbrev pub notification_of : Publication Scope Event → Notification
  notification_of p = record (header_of p) { payload = p.wire }

  -- What its handler is to be given there: the scope of the event, and the schema and the payload of
  -- its converter.
  abbrev pub told_of : Publication Scope Event → Transported Scope
  told_of p = record {
    scope = events.event_scope (sent_event events p);
    wire_schema = p.schema;
    serialized_payload = p.wire;
    notification = notification_of p;
  }

module _ {Scope Event : Type 0} (env : Env) (events : Events Scope Event) (naming : Naming Scope)
    (serialize : Fragment → Text) (parse : Text → Option Fragment) (pool : Pool) where
  -- The event can be serialized, its fragments have space and carry its identification, no name
  -- of its groups is too long or holds a NUL byte, they are not the private group `own` alone, and
  -- the header that the core library writes holds its schema and its scope, as the constructor of a
  -- scope reads it; and the receiver's pool knows nothing of it.
  pub record IsPublishable (c : Connector Scope) (own : Text) (p : Publication Scope Event)
      : Type 0 where
    pub serialized : events.serialize (sent_event events p) ≡ ok (p.schema, p.wire)
    pub fits : Fits env events c (sent_event events p) p.schema p.wire
    pub identified : (i : ℕ) → key_of (populate env events (sent_event events p) p.schema i) ≡ p.key
    pub whole : Whole env (groups_for env naming (events.event_scope (sent_event events p)))
    pub other : groups_for env naming (events.event_scope (sent_event events p)) ≢ own ∷ []
    pub parsed :
        naming.parse_scope (header_of env events naming serialize parse p).scope
        ≡ ok (events.event_scope (sent_event events p))
    pub titled : (header_of env events naming serialize parse p).wire_schema ≡ p.schema
    pub unknown : lookup Text_discrete p.key pool.assemblies ≡ none

  -- These are all fragments of the event, as the bus sends them.
  pub record IsWhole (key : Text) (fs : List (Tagged Scope)) (n : Transported Scope) : Type 0 where
    pub publication : Publication Scope Event
    pub connector : Connector Scope
    pub cuts : List Fragment
    pub fits :
        Fits env events connector
          (sent_event events publication)
          publication.schema
          publication.wire
    pub cut :
        cut_wire env events connector
          (sent_event events publication)
          (publication.schema, publication.wire)
        ≡ ok cuts
    pub all_sent : map (λ f. f.0) fs ≡ map (numbered env (write serialize) (length cuts)) cuts
    pub same_key : key ≡ publication.key
    pub same_told : n ≡ told_of env events naming serialize parse publication
    pub parsed :
        naming.parse_scope (header_of env events naming serialize parse publication).scope
        ≡ ok (events.event_scope (sent_event events publication))
    pub titled :
        (header_of env events naming serialize parse publication).wire_schema ≡ publication.schema
    pub unknown : lookup Text_discrete key pool.assemblies ≡ none

  -- The fragments with what they are part of.
  abbrev pub tagged : Publication Scope Event → List Fragment → List (Tagged Scope)
  tagged p fs = map (λ f. (f, told_of env events naming serialize parse p)) fs

  pub untag : (p : Publication Scope Event) (fs : List Fragment) → map (λ f. f.0) (tagged p fs) ≡ fs
  untag p [] = refl
  untag p (f ∷ fs) = ap (◌∷◌ f) (untag p fs)

  -- They have one key.
  pub with_key_same :
      (key : Text) (p : Publication Scope Event) (fs : List Fragment)
      → All (λ f. key_of f ≡ key) fs
      → with_key key (tagged p fs) ≡ tagged p fs
  with_key_same key p [] h = refl
  with_key_same key p (f ∷ fs) h =
      if_pos (Text_discrete (key_of f) key) h.0 _ _
      ∙ ap (◌∷◌ (f, told_of env events naming serialize parse p)) (with_key_same key p fs h.1)

  pub with_key_other :
      (key other : Text) (p : Publication Scope Event) (fs : List Fragment)
      → key ≢ other
      → All (λ f. key_of f ≡ key) fs
      → with_key other (tagged p fs) ≡ []
  with_key_other key other p [] ne h = refl
  with_key_other key other p (f ∷ fs) ne h =
      if_neg (Text_discrete (key_of f) other) (λ same. ne (sym h.0 ∙ same)) _ _
      ∙ with_key_other key other p fs ne h.1

  -- The calls of an event bring its fragments.
  pub Carry-AllBring :
      (p : Publication Scope Event) (own : Text) (n : ℕ) (m : Message) (fs : List Fragment)
      (cs : List Call)
      → IsSorted m.groups
      → Whole env m.groups
      → m.groups ≢ own ∷ []
      → Carry env (write serialize) n m fs cs
      → AllBring env serialize own cs (tagged p (map (numbered env (write serialize) n) fs))
  Carry-AllBring p own n m [] [] sorted whole other v = tt
  Carry-AllBring p own n m [] (c ∷ cs) sorted whole other v = absurd v
  Carry-AllBring p own n m (f ∷ fs) [] sorted whole other v = absurd v
  Carry-AllBring p own n m (f ∷ fs) (c ∷ cs) sorted whole other ((l, d, e, sent), v) =
      let same : serialize (numbered env (write serialize) n f) ≡ d = ground (arith, e) in
      (
        (
          m,
          l,
          sorted,
          whole,
          other,
          ap (λ t. transmission env l (set_data t m) m.groups) same ∙ sent,
        ),
        Carry-AllBring p own n m fs cs sorted whole other v,
      )

  pub one-Gather :
      (key : Text) (all : List (Tagged Scope)) (p : Publication Scope Event) (fs : List Fragment)
      → IsWhole key all (told_of env events naming serialize parse p)
      → with_key key all ≡ all
      → All (λ f. key_of f ≡ key) fs
      → Gather IsWhole (tagged p fs) all
  one-Gather key all p [] whole same keys = tt
  one-Gather key all p (f ∷ fs) whole same keys = (
    subst (λ k. IsWhole k (with_key k all) (told_of env events naming serialize parse p))
        (sym keys.0)
        (subst (λ ds. IsWhole key ds (told_of env events naming serialize parse p)) (sym same)
          whole),
    one-Gather key all p fs whole same keys.1,
  )

  not_last :
      (d : Tagged Scope) (ds : List (Tagged Scope)) (x y : List (Transported Scope))
      → (if length (d ∷ ds) == 0 then x else y) ≡ y
  not_last d ds x y = ground arith

  -- Fragments of other events follow.
  pub completions_one :
      (key : Text) (p : Publication Scope Event) (fs : List Fragment) (gs : List (Tagged Scope))
      → 1 ≤ length fs
      → All (λ f. key_of f ≡ key) fs
      → with_key key gs ≡ []
      → completions (tagged p fs ++ gs)
        ≡ told_of env events naming serialize parse p ∷ completions gs
  completions_one key p [] gs some_left keys no_more = absurd (omega arith)
  completions_one key p (f ∷ []) gs some_left keys no_more =
      ap
        (λ ds.
          if length ds == 0
          then told_of env events naming serialize parse p ∷ completions gs
          else completions gs)
        (subst (λ k. with_key k gs ≡ []) (sym keys.0) no_more)
  completions_one key p (f ∷ g ∷ fs) gs some_left keys no_more =
      ap
        (λ ds.
          if length ds == 0
          then told_of env events naming serialize parse p ∷ completions (tagged p (g ∷ fs) ++ gs)
          else completions (tagged p (g ∷ fs) ++ gs))
        (if_pos (Text_discrete (key_of g) (key_of f)) (keys.1.0 ∙ sym keys.0) _ _)
      ∙ not_last (g, told_of env events naming serialize parse p)
          (with_key (key_of f) (tagged p fs ++ gs))
          (told_of env events naming serialize parse p ∷ completions (tagged p (g ∷ fs) ++ gs))
          (completions (tagged p (g ∷ fs) ++ gs))
      ∙ completions_one key p (g ∷ fs) gs (omega arith) keys.1 no_more

  -- What the calls of one event bring.
  pub record Brought (own : Text) (p : Publication Scope Event) (cs : List Call) : Type 0 where
    pub pieces : List Fragment
    pub some_left : 1 ≤ length pieces
    pub keys : All (λ f. key_of f ≡ p.key) pieces
    pub brought : AllBring env serialize own cs (tagged p pieces)
    pub gathered : Gather IsWhole (tagged p pieces) (tagged p pieces)
