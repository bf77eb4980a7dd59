-- ===== src/Examples/Subscribers.antt =====
-- Two processes that publish three events, and the handlers of one that receives them, one of which
-- throws.
use rsb_spread_cpp.Base.{
  ℕ, ◌+◌, ◌≡◌, true, false, refl, [], ◌∷◌, List, if◌then◌else◌, ◌==◌, length, map, arith, Text,
  other_exception, ok, throw,
}
use rsb_spread_cpp.Notifications.{Transported}
use rsb_spread_cpp.Receiver.{Handler, Receiver}
use rsb_spread_cpp.InConnector.{
  World, Consuming, InConnector, ErrorStrategy, log, print, handle_error,
}
use rsb_spread_cpp.EndToEnd.Merging.{Merges}
use rsb_spread_cpp.EndToEnd.Rounds.{rounds}
use rsb_spread_cpp.EndToEnd.Network.{told_by}
use rsb_spread_cpp.InConnector.Returning.{IsCalm, notify_each}
use rsb_spread_cpp.EndToEnd.Subscribers.{hand_over_all, rounds-notify}
use rsb_spread_cpp.Examples.Fixtures.{naming, link, pool}
use rsb_spread_cpp.Examples.Codec.{serialize, parse, parse-serialize}
use rsb_spread_cpp.Examples.Buses.{dispatching}
use rsb_spread_cpp.Examples.Networks.{
  events, one_sender, other_sender, handing_env, handed, merged, arriving, one_ready, other_ready,
}

-- Payloads of three bytes cannot be converted, the handler 1 throws, and others count their calls.
abbrev consuming : Consuming Text Text Text ℕ ℕ
consuming = record {
  new_event = [];
  deserialize = λ n.
      if length n.notification.payload == 3
      then throw (other_exception [])
      else ok n.notification.payload;
  fill_event = λ n d e. (ok tt, d);
  set_receive_time = λ e. e;
  handle = λ r e w. if r == 1 then (throw (other_exception []), w) else (ok tt, w + 1);
}

abbrev listening : ErrorStrategy → List ℕ → InConnector Text ℕ
listening strategy handlers = record {
  active = true;
  scope = 47 ∷ [];
  error_strategy = strategy;
  handlers = handlers;
}

abbrev chosen : Transported Text → List (InConnector Text ℕ)
chosen n = listening log (1 ∷ []) ∷ listening print (2 ∷ 3 ∷ []) ∷ []

abbrev handler : Handler Text (World ℕ)
handler = record {
  handle_incoming = λ n. notify_each consuming (chosen n) n;
  handle_error = λ e. handle_error consuming (listening log []) e;
  is_comm_exception = λ e. false;
}

abbrev receiver : Receiver (World ℕ)
receiver = record {
  link = link;
  pool = pool;
  cancelled = false;
  handled = record { outside = 0; log_lines = []; error_lines = [] };
}

calm : IsCalm consuming
calm = record {
  deserializes = λ n. ground arith;
  fills = λ n d e. tt;
  handles = λ h e w. ground arith;
}

rounds-notify_example :
    let r = rounds handing_env naming parse serialize handler (5 ∷ 6 ∷ 7 ∷ 8 ∷ []) receiver in
    (ns : List (Transported Text)) × Merges
      (map
        (told_by handing_env events naming dispatching serialize parse)
        (one_sender ∷ other_sender ∷ []))
      ns
    × (r.0 ≡ ok tt)
    × (r.1.handled.outside ≡ hand_over_all consuming chosen ns 0)
    × (r.1.cancelled ≡ false)
rounds-notify_example =
    rounds-notify handing_env events naming dispatching serialize parse consuming handler chosen
      (one_sender ∷ other_sender ∷ []) handed (5 ∷ 6 ∷ 7 ∷ 8 ∷ []) receiver parse-serialize
      (one_ready, (other_ready, tt)) ((((λ same. cc, tt), ((λ same. cc, tt), tt)), tt), (tt, tt))
      merged refl arriving refl (λ n w. refl) (λ n. ((λ e. cc), ((λ e. cc), tt))) calm
