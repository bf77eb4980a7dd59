-- ===== src/Examples/Fragments.antt =====
-- The theorems on fragments and notifications, at concrete ones.
use rsb_spread_cpp.Base.{
  ◌≡◌, refl, ◌≢◌, ◌↔◌, true, false, none, some, List, [], ◌∷◌, arith, Text, Text_discrete, lookup,
  out_of_bounds, ok, fault,
}
use mathlib.Core.List.{Permᴰ}
use rsb_spread_cpp.Protocol.{Fragment}
use rsb_spread_cpp.Examples.Fixtures.{
  env, naming, events, connector, wire, notification, part, stranger, pool, key,
}
use rsb_spread_cpp.Examples.Codec.{serialize, parse, parse-serialize}
use rsb_spread_cpp.Assembly.{Assembly, empty_assembly}
use rsb_spread_cpp.Pool.{Pool, key_of, tick, set_pruning, is_pruning, running}
use rsb_spread_cpp.Pool
use rsb_spread_cpp.Pool.Keys.{key_of_iff}
use rsb_spread_cpp.Pool.Bounds.{add_out_of_range}
use rsb_spread_cpp.Pool.Isolation.{Arrivals, of_key, answers, answers-of_key}
use rsb_spread_cpp.Pool.Pruning.{
  kept_for, tick_lem, set_pruning_all, set_pruning_once, prune_clock_set_back,
}
use rsb_spread_cpp.Deserializing.{incoming}
use rsb_spread_cpp.Deserializing.Reception.{receptions, received_last}
use rsb_spread_cpp.OutConnector.{cut_wire, with_part, populate, Connector}
use rsb_spread_cpp.OutConnector.Cutting.{Fits, Delivers, cut_wire-Delivers}
use rsb_spread_cpp.OutConnector.Limits.{Rejects, cut_wire-Rejects, cut_wire_wraps}
use rsb_spread_cpp.EndToEnd.{receptions-cut_wire}

-- The second part first, and a stranger's fragment between the two.
abbrev arrivals : Arrivals
arrivals = (5, part 1 (3 ∷ [])) ∷ (6, stranger) ∷ (7, part 0 (1 ∷ 2 ∷ [])) ∷ []

abbrev assembly : Assembly
assembly = empty_assembly 2 5000000

abbrev held : Pool
held = record pool { assemblies = (key, assembly) ∷ [] }

pub connector-Fits : Fits env events connector wire (115 ∷ []) wire
unfolding populate
connector-Fits = record { headers = λ i. omega arith; small = omega arith }

-- The fragments of the event.
abbrev pub cut_fragments : List Fragment
cut_fragments =
    record (part 0 (1 ∷ 2 ∷ 3 ∷ 4 ∷ 5 ∷ 6 ∷ 7 ∷ 8 ∷ [])) { num_data_parts = 1 }
    ∷ record {
      notification = record notification {
        payload = 9 ∷ 10 ∷ 11 ∷ [];
        scope = [];
        wire_schema = [];
      };
      num_data_parts = 1;
      data_part = 1;
    }
    ∷ []

pub cut_example : cut_wire env events connector wire (115 ∷ [], wire) ≡ ok cut_fragments
unfolding cut_wire
cut_example = refl

abbrev cut_arrivals : Arrivals
cut_arrivals =
    (
      5,
      record {
        notification = record notification {
          payload = 9 ∷ 10 ∷ 11 ∷ [];
          scope = [];
          wire_schema = [];
        };
        num_data_parts = 2;
        data_part = 1;
      },
    )
    ∷ (6, stranger)
    ∷ (7, part 0 (1 ∷ 2 ∷ 3 ∷ 4 ∷ 5 ∷ 6 ∷ 7 ∷ 8 ∷ []))
    ∷ []

receptions-cut_wire_example :
    receptions env naming parse serialize [] key cut_arrivals pool
    ≡ received_last env naming parse serialize
        (incoming env naming parse (some (record notification { payload = wire })))
        2
unfolding populate of_key key_of Text_discrete
receptions-cut_wire_example =
    receptions-cut_wire env events naming serialize parse connector wire (115 ∷ []) wire
      cut_fragments [] key cut_arrivals pool parse-serialize connector-Fits cut_example
      (omega arith) (omega arith) refl (Permᴰ.swap refl refl)

cut_wire-Delivers_example :
    Delivers env events connector wire
      (115 ∷ [])
      wire
      connector-Fits
      (cut_wire env events connector wire (115 ∷ [], wire))
cut_wire-Delivers_example =
    cut_wire-Delivers env events connector wire (115 ∷ []) wire connector-Fits

answers-of_key_example : answers env key arrivals pool ≡ answers env key (of_key key arrivals) pool
answers-of_key_example = answers-of_key env key arrivals pool

key_of_iff_example : (key_of (part 0 []) ≡ key_of stranger) ↔ (
    ((part 0 []).sender_id ≡ stranger.sender_id)
    × ((part 0 []).sequence_number ≡ stranger.sequence_number))
key_of_iff_example = key_of_iff (part 0 []) stranger (omega arith) (omega arith)

add_out_of_range_example :
    Pool.add env 0 (record stranger { data_part = 2 }) pool ≡ (fault out_of_bounds, pool)
add_out_of_range_example =
    add_out_of_range env 0 (record stranger { data_part = 2 }) pool (omega arith) refl

tick_lem_example :
    (held.pruning_task ≡ some running
      → lookup Text_discrete key (tick 9000000 held).assemblies
        ≡ kept_for 20 9000000 (lookup Text_discrete key held.assemblies))
    × (held.pruning_task ≢ some running → tick 9000000 held ≡ held)
unfolding Text_discrete
tick_lem_example = tick_lem 9000000 held key (refl, tt) (omega arith, omega arith)

set_pruning_once_example :
    let q = set_pruning_all (true ∷ []) (set_pruning false held) in
    (is_pruning q ≡ true) × (tick 90000000 q ≡ q)
set_pruning_once_example = set_pruning_once held (true ∷ []) 90000000 refl

prune_clock_set_back_example : lookup Text_discrete key (tick 1000000 held).assemblies ≡ none
unfolding Text_discrete
prune_clock_set_back_example =
    prune_clock_set_back held key assembly 1000000 (refl, tt) refl refl (omega arith) (omega arith)

-- A limit that the meta data exceed, and one that is below the minimal space.
abbrev narrow : Connector Text
narrow = record connector { max_fragment_size = 6 }

abbrev tiny : Connector Text
tiny = record connector { max_fragment_size = 1 }

cut_wire-Rejects_example :
    Rejects env events narrow wire
      (115 ∷ [])
      wire
      (cut_wire env events narrow wire (115 ∷ [], wire))
unfolding populate
cut_wire-Rejects_example =
    cut_wire-Rejects env events narrow wire (115 ∷ []) wire (omega arith) (omega arith)
      (omega arith)

cut_wire_wraps_example :
    cut_wire env events tiny wire (115 ∷ [], wire)
    ≡ ok (with_part env events (populate env events wire (115 ∷ []) 0) 0 wire ∷ [])
unfolding populate
cut_wire_wraps_example =
    cut_wire_wraps env events tiny wire (115 ∷ []) wire (omega arith) (omega arith) (omega arith)
      (omega arith) (omega arith)
