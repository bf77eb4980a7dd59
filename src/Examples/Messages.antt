-- ===== src/Examples/Messages.antt =====
-- The theorems on messages, connections and groups, at concrete ones.
use rsb_spread_cpp.Base.{
  ℕ, zero, suc, fault, out_of_bounds, ◌≤◌, ◌≡◌, refl, [], ◌∷◌, arith, length, replicate, All, Text,
  text_ltb, c_str, ok,
}
use rsb_spread_cpp.Spread.{Call}
use rsb_spread_cpp.Examples.Fixtures.{env, naming, link, message}
use rsb_spread_cpp.Message.{Message, new_message}
use rsb_spread_cpp.Connection.{Reception, receive, send, log_call}
use rsb_spread_cpp.Connection.Sessions.{IsValid, activates, sends, run, fresh, run-fresh-IsValid}
use rsb_spread_cpp.Connection.Sessions
use rsb_spread_cpp.Connection.Sending.{Fit, Sends, send-Sends, send_too_many_groups}
use rsb_spread_cpp.Connection.Delivery.{received, receive-send}
use rsb_spread_cpp.Membership.{Membership, new_membership}
use rsb_spread_cpp.Membership.Daemon.{IsBacked, joins, leaves, use_groups, use_groups-IsBacked}
use rsb_spread_cpp.GroupNameCache.{Serves, queried, scope_to_groups, scope_to_groups-queried}

abbrev group : Text
group = 97 ∷ []

abbrev members : Membership
members = record { link = link; groups = (group, 2) ∷ [] }

run-fresh-IsValid_example : IsValid env (
    run env
      (activates ∷ sends message ∷ Sessions.joins group ∷ Sessions.deactivates ∷ [])
      (fresh env group 4803))
run-fresh-IsValid_example =
    run-fresh-IsValid env group 4803
      (activates ∷ sends message ∷ Sessions.joins group ∷ Sessions.deactivates ∷ [])

send-Sends_example : Sends env link message message.groups (send env message link)
send-Sends_example = send-Sends env link message

abbrev crowded : Message
crowded = record message { groups = replicate 101 group }

crowded_Fit : (n : ℕ) → Fit env (replicate n group)
crowded_Fit zero = tt
crowded_Fit (suc n) = (omega arith, crowded_Fit n)

send_too_many_groups_example : send env crowded link ≡ (fault out_of_bounds, link)
send_too_many_groups_example =
    send_too_many_groups env link crowded refl (omega arith) (crowded_Fit 101)

abbrev sent : Reception
sent = record { link = (send env message link).1; message = new_message }

receive-send_example : receive env sent ≡ (
  ok tt,
  record {
    link = log_call (Call.receive sent.link.mailbox) sent.link;
    message = received env message;
  },
)
unfolding send text_ltb c_str
receive-send_example =
    receive-send env link sent message (ground arith) (ground arith) refl
      (record {
        all_read = refl;
        same_payload = refl;
        same_groups = refl;
        same_count = refl;
        is_regular = refl;
      })
      refl (ground arith) refl

use_groups-IsBacked_example :
    IsBacked env (use_groups env (joins group ∷ leaves group ∷ []) (new_membership link))
unfolding c_str
use_groups-IsBacked_example =
    use_groups-IsBacked env (joins group ∷ leaves group ∷ []) link (refl, (refl, tt))

scope_to_groups-queried_example :
    Serves env naming group
      (scope_to_groups env naming group (queried env naming ((98 ∷ []) ∷ group ∷ []) []))
    × All
        (λ g. length g ≤ 31)
        (scope_to_groups env naming group (queried env naming ((98 ∷ []) ∷ group ∷ []) [])).0
scope_to_groups-queried_example = scope_to_groups-queried env naming ((98 ∷ []) ∷ group ∷ []) group
