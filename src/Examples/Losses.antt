-- ===== src/Examples/Losses.antt =====
-- An event of two fragments, of which one does not come.
use rsb_spread_cpp.Base.{
  ◌≡◌, refl, Option, [], ◌∷◌, arith, pos, negsuc, Text, Text_discrete, c_str, Result, ok,
}
use rsb_spread_cpp.Spread.{Env}
use rsb_spread_cpp.Protocol.{Fragment}
use rsb_spread_cpp.Connection
use rsb_spread_cpp.Connection.{Link}
use rsb_spread_cpp.Pool.{key_of}
use rsb_spread_cpp.Pool.Isolation.{Arrivals, of_key}
use rsb_spread_cpp.Deserializing.Reception.{receptions}
use rsb_spread_cpp.OutConnector.{cut_wire, populate}
use rsb_spread_cpp.OutConnector.Cutting.{Fits}
use rsb_spread_cpp.Base.{true}
use rsb_spread_cpp.Bus.{send_fragments}
use rsb_spread_cpp.EndToEnd.Losing.{Silent, receptions-Silent}
use rsb_spread_cpp.EndToEnd.Stopping.{write_if, Stops, send_fragments-Silent}
use rsb_spread_cpp.EndToEnd.Processes.{Permᴰ-refl}
use rsb_spread_cpp.Examples.Fixtures.{
  env, naming, events, connector, wire, link, message, notification, part, stranger, pool, key,
}
use rsb_spread_cpp.Examples.Codec.{serialize, parse, parse-serialize}
use rsb_spread_cpp.Examples.Fragments.{cut_fragments, cut_example, connector-Fits}
use mathlib.Core.List.{Permᴰ}

abbrev last_part : Fragment
last_part = record {
  notification = record notification { payload = 9 ∷ 10 ∷ 11 ∷ []; scope = []; wire_schema = [] };
  num_data_parts = 2;
  data_part = 1;
}

abbrev first_part : Fragment
first_part = part 0 (1 ∷ 2 ∷ 3 ∷ 4 ∷ 5 ∷ 6 ∷ 7 ∷ 8 ∷ [])

abbrev only_last : Arrivals
only_last = (5, stranger) ∷ (6, last_part) ∷ []

receptions-Silent_example :
    Silent env naming parse serialize (receptions env naming parse serialize [] key only_last pool)
unfolding populate of_key key_of Text_discrete
receptions-Silent_example =
    receptions-Silent env events naming serialize parse connector wire (115 ∷ []) wire cut_fragments
      [] key only_last (first_part ∷ []) pool parse-serialize connector-Fits cut_example
      (omega arith) (refl, (refl, tt)) refl (Permᴰ.swap refl refl) (omega arith)

-- A daemon that is gone after the first call.
abbrev failing_env : Env
failing_env = record env {
  sp_multigroup_multicast = λ h m q gs d. elim h [ [] ↦ pos 5 | c ∷ h ↦ negsuc 0 ];
}

failing-Fits : Fits failing_env events connector wire (115 ∷ []) wire
unfolding populate
failing-Fits = record { headers = λ i. omega arith; small = omega arith }

failing_cut : cut_wire failing_env events connector wire (115 ∷ [], wire) ≡ ok cut_fragments
unfolding cut_wire
failing_cut = refl

abbrev only_first : Arrivals
only_first = (5, stranger) ∷ (6, first_part) ∷ []

abbrev write : Fragment → Option Text
write = write_if (λ f. true) serialize

abbrev given_up : Result (Unit {0}) × Link
given_up = send_fragments failing_env write 2 message cut_fragments link

send_fragments-Silent_example :
    Stops failing_env write message cut_fragments link given_up.1
    × Silent failing_env naming parse serialize
        (receptions failing_env naming parse serialize [] key only_first pool)
unfolding populate of_key key_of Text_discrete send_fragments Connection.send Connection.send_to
    Connection.copy_groups c_str
send_fragments-Silent_example =
    send_fragments-Silent failing_env events naming (λ f. true) serialize parse connector wire
      (115 ∷ []) wire cut_fragments [] key only_first pool message link [] parse-serialize
      failing-Fits failing_cut (omega arith) (λ returned. returned) (refl, (refl, tt)) refl
      (Permᴰ-refl _)
