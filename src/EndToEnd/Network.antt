-- ===== src/EndToEnd/Network.antt =====
-- Several processes that publish events, and a process that receives what all of them send.
use rsb_spread_cpp.Base.{
  ◌≡◌, ◌≢◌, ◌⊎◌, refl, sym, ap₂, subst, inl, inr, Option, List, [], ◌∷◌, map, All, Text,
  Text_discrete, Result, ok,
}
use rsb_spread_cpp.Spread.{Call, Env}
use rsb_spread_cpp.Protocol.{Fragment}
use rsb_spread_cpp.Notifications.{Transported}
use rsb_spread_cpp.GroupNameCache.{Naming}
use rsb_spread_cpp.Pool.{Pool}
use rsb_spread_cpp.Bus.{Dispatching, Bus, connection}
use rsb_spread_cpp.OutConnector.{Events, Connector}
use rsb_spread_cpp.EndToEnd.Traffic.{Tagged, with_key, completions, AllBring}
use rsb_spread_cpp.EndToEnd.Merging.{Apart}
use rsb_spread_cpp.EndToEnd.Gathering.{Gather, AllApart, AllBringAll}
use rsb_spread_cpp.EndToEnd.Calls.{made, made-onto}
use rsb_spread_cpp.EndToEnd.Publications.{Publication, IsWhole, told_of}
use rsb_spread_cpp.EndToEnd.Senders.{publish, IsCached, Publishable, Differ, Series, publish-Series}

-- A process that publishes these events with its connector on its bus.
pub record Sender (Scope Event Sinks : Type 0) : Type 0 where
  pub connector : Connector Scope
  pub bus : Bus Sinks
  pub publications : List (Publication Scope Event)

-- All items of a list, or one that is not.
key-cases :
    {Scope Event : Type 0} (P : Publication Scope Event → Type 0) (key : Text)
    (ps : List (Publication Scope Event))
    → All P ps
    → All (λ p. p.key ≢ key) ps ⊎ ((p : Publication Scope Event) × (p.key ≡ key) × P p)
key-cases P key [] h = inl tt
key-cases P key (p ∷ ps) h = elim (Text_discrete p.key key) [
  | yes e ↦ inr (p, e, h.0)
  | no ne ↦ elim (key-cases P key ps h.1) [ inl rest ↦ inl (ne, rest) | inr found ↦ inr found ]
]

module _ {Scope Event Sink Sinks : Type 0} (env : Env) (events : Events Scope Event)
    (naming : Naming Scope) (dispatching : Dispatching Scope Sink Sinks)
    (serialize : Fragment → Text) where
  -- What a sender's calls return, and the calls of the client library that they make.
  abbrev pub published :
      Sender Scope Event Sinks → Result (Unit {0}) × (Connector Scope × Bus Sinks)
  published s = publish env events naming dispatching serialize s.publications (s.connector, s.bus)

  abbrev pub calls_of : Sender Scope Event Sinks → List Call
  calls_of s = made (connection s.bus) (connection (published s).1.1)

  module _ (parse : Text → Option Fragment) where
    -- What the events of a sender are handed on as.
    abbrev pub told_by : Sender Scope Event Sinks → List (Transported Scope)
    told_by s = map (told_of env events naming serialize parse) s.publications

    -- The sender's cache is right, its events can be published, no two of them have one key, and
    -- publishing them returns.
    pub record IsReady (own : Text) (pool : Pool) (s : Sender Scope Event Sinks) : Type 0 where
      pub cached : IsCached env events naming dispatching serialize parse pool s.connector
      pub publishable :
          All
            (Publishable env events naming dispatching serialize parse pool s.connector own)
            s.publications
      pub differ : Differ env events naming dispatching serialize parse pool s.publications
      pub returned : (published s).0 ≡ ok tt

    abbrev KeysApart : List (Publication Scope Event) → Sender Scope Event Sinks → Type 0
    KeysApart ps s = All (λ p. All (λ q. q.key ≢ p.key) s.publications) ps

    -- No event of one sender has the key of an event of another.
    abbrev pub AllDiffer : List (Sender Scope Event Sinks) → Type 0
    AllDiffer [] = Unit {0}
    AllDiffer (s ∷ ss) = All (KeysApart s.publications) ss × AllDiffer ss

    module _ (own : Text) (pool : Pool) where
      abbrev SeriesOf : Sender Scope Event Sinks → Type 0
      SeriesOf s =
          Series env events naming dispatching serialize parse pool own s.publications
            (connection s.bus) (connection (published s).1.1)

      -- What the calls of all of them bring.
      pub record Pieces (ss : List (Sender Scope Event Sinks)) : Type 0 where
        pub pieces : List (List (Tagged Scope))
        pub brings : AllBringAll env serialize own (map calls_of ss) pieces
        pub gathered :
            All (λ fs. Gather (IsWhole env events naming serialize parse pool) fs fs) pieces
        pub apart : AllApart pieces
        pub told : map completions pieces ≡ map told_by ss
        pub others :
            (ps : List (Publication Scope Event)) (fs : List (Tagged Scope))
            → ((key : Text) → All (λ p. p.key ≢ key) ps → with_key key fs ≡ [])
            → All (KeysApart ps) ss
            → All (Apart fs) pieces

      cons_Pieces :
          (s : Sender Scope Event Sinks) (ss : List (Sender Scope Event Sinks))
          → SeriesOf s
          → All (KeysApart s.publications) ss
          → Pieces ss
          → Pieces (s ∷ ss)
      cons_Pieces s ss v differ rest =
          let calls =
            made-onto (connection s.bus) (connection (published s).1.1) v.calls v.called in
          record {
            pieces = v.pieces ∷ rest.pieces;
            brings = (
              subst (λ cs. AllBring env serialize own cs v.pieces) (sym calls) v.brings,
              rest.brings,
            );
            gathered = (v.gathered, rest.gathered);
            apart = (rest.others s.publications v.pieces v.only differ, rest.apart);
            told = ap₂ ◌∷◌ v.told rest.told;
            others = λ ps fs only keys. (
              λ key. elim (key-cases (λ p. All (λ q. q.key ≢ p.key) s.publications) key ps keys.0) [
                | inl none_here ↦ inl (only key none_here)
                | inr (p, same, there) ↦
                    inr (v.only key (subst (λ k. All (λ q. q.key ≢ k) s.publications) same there))
              ],
              rest.others ps fs only keys.1,
            );
          }

      pub senders-Pieces :
          (ss : List (Sender Scope Event Sinks))
          → All (IsReady own pool) ss
          → AllDiffer ss
          → Pieces ss
      senders-Pieces [] ready differ = record {
        pieces = [];
        brings = tt;
        gathered = tt;
        apart = tt;
        told = refl;
        others = λ ps fs only keys. tt;
      }
      senders-Pieces (s ∷ ss) ready differ =
          let r = ready.0 in
          cons_Pieces s ss
            (publish-Series env events naming dispatching serialize parse pool own s.publications
              s.connector s.bus r.cached r.publishable r.differ r.returned)
            differ.0 (senders-Pieces ss ready.1 differ.1)
