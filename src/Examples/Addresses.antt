-- ===== src/Examples/Addresses.antt =====
-- A notification whose groups are out of order and repeated.
use rsb_spread_cpp.Base.{[], ◌∷◌, ◌≡◌, arith, Text}
use mathlib.Core.Quot
use rsb_spread_cpp.Notifications.{Outgoing}
use rsb_spread_cpp.Message.Groups.{IsSorted}
use rsb_spread_cpp.Message.Sets.{GroupSet, listed}
use rsb_spread_cpp.Bus.{send_notification}
use rsb_spread_cpp.Bus.Addressing.{send_to_set, send_notification-send_to_set}
use rsb_spread_cpp.Examples.Fixtures.{env, link}
use rsb_spread_cpp.Examples.Buses.{outgoing_example, written}

abbrev scattered : Outgoing Text
scattered = record outgoing_example { groups = (98 ∷ []) ∷ (97 ∷ []) ∷ (98 ∷ []) ∷ [] }

abbrev both : GroupSet
both = Quot.mk ((97 ∷ []) ∷ (98 ∷ []) ∷ [])

send_notification-send_to_set_example :
    (send_notification env written scattered link ≡ send_to_set env written scattered both link)
    × IsSorted (listed both)
    × (Quot.mk (listed both) ≡ both)
send_notification-send_to_set_example =
    send_notification-send_to_set env written scattered both link (Quot.sound (λ x. ground arith))
      (omega arith, (omega arith, (omega arith, tt)))
