-- ===== src/Examples/Networks.antt =====
-- Two processes that publish three events, and one that receives them.
use rsb_spread_cpp.Base.{
  sym, ap₂, subst, ℕ, ◌+◌, ◌<◌, ◌≡◌, refl, some, List, [], ◌∷◌, map, length, arith, pos, Text,
  text_ltb, c_str, Text_discrete, ok,
}
use rsb_spread_cpp.Spread.{History, Received, Call, Env, multigroup_multicast}
use rsb_spread_cpp.Protocol.{Fragment}
use rsb_spread_cpp.Notifications.{Transported}
use rsb_spread_cpp.Examples.Fixtures.{env, naming, connector, link, notification}
use rsb_spread_cpp.Examples.Fixtures
use rsb_spread_cpp.Examples.Codec.{serialize, parse, parse-serialize}
use rsb_spread_cpp.Examples.Buses.{dispatching, bus, handler, receiver}
use rsb_spread_cpp.Bus
use rsb_spread_cpp.GroupNameCache
use rsb_spread_cpp.Connection
use rsb_spread_cpp.Connection.Delivery.{Delivers}
use rsb_spread_cpp.OutConnector.{Events, cut_wire, populate, handle}
use rsb_spread_cpp.OutConnector
use rsb_spread_cpp.Pool.{key_of}
use rsb_spread_cpp.EndToEnd.Rounds.{rounds}
use rsb_spread_cpp.EndToEnd.Traffic.{tell, Tells}
use rsb_spread_cpp.EndToEnd.Merging.{Merges, both_done, from_left, from_right}
use rsb_spread_cpp.EndToEnd.Calls.{Handed}
use rsb_spread_cpp.EndToEnd.Publications.{Publication, IsPublishable}
use rsb_spread_cpp.EndToEnd.Network.{Sender, IsReady, calls_of, published, told_by}
use rsb_spread_cpp.EndToEnd.Interleaving.{rounds-publish}
use rsb_spread_cpp.Message

-- An event is its payload, and numbered by its length.
abbrev pub events : Events Text Text
events = record Fixtures.events {
  fill_id = λ e n. record n { sender_id = 1 ∷ []; sequence_number = length e };
}

abbrev published_as : Text → Publication Text Text
published_as e = record {
  now = 5;
  event = e;
  schema = 115 ∷ [];
  wire = e;
  key = 1 ∷ length e ∷ 0 ∷ 0 ∷ 0 ∷ [];
}

abbrev pub one_sender : Sender Text Text ℕ
one_sender = record {
  connector = connector;
  bus = bus;
  publications =
      published_as (1 ∷ 2 ∷ 3 ∷ 4 ∷ 5 ∷ 6 ∷ 7 ∷ 8 ∷ 9 ∷ 10 ∷ []) ∷ published_as (1 ∷ 2 ∷ []) ∷ [];
}

abbrev pub other_sender : Sender Text Text ℕ
other_sender = record {
  connector = connector;
  bus = bus;
  publications = published_as (3 ∷ 4 ∷ 5 ∷ []) ∷ [];
}

-- The first fragment of an event, which holds so many bytes, and a later one.
abbrev first_of : ℕ → ℕ → Text → Fragment
first_of n parts t = record {
  notification = record notification { sequence_number = n; payload = t };
  num_data_parts = parts;
  data_part = 0;
}

abbrev second_of : ℕ → Text → Fragment
second_of n t = record {
  notification = record notification {
    sequence_number = n;
    payload = t;
    scope = [];
    wire_schema = [];
  };
  num_data_parts = 2;
  data_part = 1;
}

abbrev big_head : Fragment
big_head = first_of 10 2 (1 ∷ 2 ∷ 3 ∷ 4 ∷ 5 ∷ 6 ∷ 7 ∷ 8 ∷ [])

abbrev big_tail : Fragment
big_tail = second_of 10 (9 ∷ 10 ∷ [])

abbrev small : Fragment
small = first_of 2 1 (1 ∷ 2 ∷ [])

abbrev strange : Fragment
strange = first_of 3 1 (3 ∷ 4 ∷ 5 ∷ [])

abbrev sent_to : List Text
sent_to = (47 ∷ []) ∷ (47 ∷ 97 ∷ []) ∷ []

abbrev carried : Fragment → Received
carried f = record {
  ret = pos (length (serialize f));
  service_type = pos 2;
  num_groups = pos 2;
  groups = sent_to;
  buffer = serialize f;
}

-- It hands over the other sender's event between the fragments of the first one.
abbrev handing : History → Fragment
handing [] = big_head
handing (c ∷ []) = strange
handing (c ∷ d ∷ []) = big_tail
handing (c ∷ d ∷ e ∷ h) = small

abbrev pub handing_env : Env
handing_env = record env { sp_receive = λ h m. carried (handing h) }

abbrev call_with : Fragment → Call
call_with f = multigroup_multicast (pos 7) 68 sent_to (serialize f)

calls_made :
    (calls_of handing_env events naming dispatching serialize one_sender
      ≡ call_with big_head ∷ call_with big_tail ∷ call_with small ∷ [])
    × (calls_of handing_env events naming dispatching serialize other_sender
        ≡ call_with strange ∷ [])
    × ((published handing_env events naming dispatching serialize one_sender).0 ≡ ok tt)
    × ((published handing_env events naming dispatching serialize other_sender).0 ≡ ok tt)
unfolding handle OutConnector.prepare cut_wire OutConnector.outgoing GroupNameCache.scope_to_groups
    GroupNameCache.scope_to_group Bus.handle_outgoing Bus.send_notification Connection.send
    Message.insert_set Message.add_group text_ltb c_str Text_discrete
calls_made = (refl, refl, refl, refl)

abbrev pub handed : List Call
handed = call_with big_head ∷ call_with strange ∷ call_with big_tail ∷ call_with small ∷ []

pub merged :
    Merges
      (map
        (calls_of handing_env events naming dispatching serialize)
        (one_sender ∷ other_sender ∷ []))
      handed
merged =
    subst (λ css. Merges css handed)
      (ap₂ (λ cs ds. cs ∷ ds ∷ []) (sym calls_made.0) (sym calls_made.1))
      (
        call_with strange ∷ [],
        ([], refl, from_left both_done),
        from_left (from_right (from_left (from_left both_done))),
      )

pub arriving : Handed handing_env naming parse serialize handler handed link
arriving = (delivered big_head, (delivered strange, (delivered big_tail, (delivered small, tt))))
  where
    delivered : (f : Fragment) → Delivers handing_env (some (call_with f)) (carried f)
    delivered f = record {
      all_read = refl;
      same_payload = refl;
      same_groups = refl;
      same_count = refl;
      is_regular = refl;
    }

-- The handler counts the events.
handler_returns : (ns : List (Transported Text)) (h : ℕ) → (tell handler ns h).0 ≡ ok tt
handler_returns [] h = refl
handler_returns (n ∷ ns) h = handler_returns ns (h + 1)

publishable :
    (e : Text)
    → length e < 256
    → IsPublishable handing_env events naming serialize parse
        (receiver link).pool
        connector
        (35 ∷ 109 ∷ [])
        (published_as e)
unfolding populate key_of c_str text_ltb Message.insert_set GroupNameCache.scope_to_group
publishable e few = record {
  serialized = refl;
  fits = record { headers = λ i. omega arith; small = omega arith };
  identified = λ i. ground arith;
  whole = ground arith;
  other = λ same. absurd (cc);
  parsed = refl;
  titled = refl;
  unknown = refl;
}

abbrev pub Publishes : (s : Sender Text Text ℕ) → Type 0
Publishes s =
    IsReady handing_env events naming dispatching serialize parse (35 ∷ 109 ∷ [])
      (receiver link).pool s

pub one_ready : Publishes one_sender
one_ready = record {
  cached = (tt, omega arith);
  publishable = (publishable _ (omega arith), (publishable _ (omega arith), tt));
  differ = ((λ same. cc, tt), (tt, tt));
  returned = calls_made.2;
}

pub other_ready : Publishes other_sender
other_ready = record {
  cached = (tt, omega arith);
  publishable = (publishable _ (omega arith), tt);
  differ = (tt, tt);
  returned = calls_made.3;
}

rounds-publish_example :
    let senders = one_sender ∷ other_sender ∷ [] in
    let told = map (told_by handing_env events naming dispatching serialize parse) senders in
    (ns : List (Transported Text)) × Merges told ns
    × Tells handing_env naming parse serialize handler 4 ns
        (receiver link)
        (rounds handing_env naming parse serialize handler (5 ∷ 6 ∷ 7 ∷ 8 ∷ []) (receiver link))
rounds-publish_example =
    rounds-publish handing_env events naming dispatching serialize parse handler
      (one_sender ∷ other_sender ∷ []) handed (5 ∷ 6 ∷ 7 ∷ 8 ∷ []) (receiver link) parse-serialize
      (one_ready, (other_ready, tt)) ((((λ same. cc, tt), ((λ same. cc, tt), tt)), tt), (tt, tt))
      merged refl arriving refl (λ ns m. handler_returns ns 0)
