-- ===== src/Bus/Addressing.antt =====
-- src/rsb/transport/spread/BusImpl.cpp: a notification is sent to a set of groups.
use rsb_spread_cpp.Base.{arith, ◌-◌, ◌≤◌, ◌≡◌, subst, Option, [], length, All, Text, Action}
use mathlib.Core.Quot
use rsb_spread_cpp.Spread.{Env}
use rsb_spread_cpp.Protocol.{Fragment}
use rsb_spread_cpp.Notifications.{Outgoing}
use rsb_spread_cpp.Message.{new_message, set_qos}
use rsb_spread_cpp.Message.Groups.{IsSorted}
use rsb_spread_cpp.Message.Adding.{add_all-IsSorted}
use rsb_spread_cpp.Message.Sets.{GroupSet, listed, mk-listed}
use rsb_spread_cpp.Connection.{Link}
use rsb_spread_cpp.Bus.{send_fragments, send_notification}
use rsb_spread_cpp.Bus.Outbound.{add_groups_fit}

module _ {Scope : Type 0} (env : Env) (serialize : Fragment → Option Text)
    (o : Outgoing Scope) where
  -- The fragments, each to the groups of the set.
  abbrev pub send_to_set : GroupSet → Action Link (Unit {0})
  send_to_set q =
      send_fragments env serialize (length o.fragments)
        (record (set_qos o.qos new_message) { groups = listed q }) o.fragments

  -- Sending is for a set: whichever list of groups a notification has for a set of names that
  -- fit, in any order and with any repetitions, sending it is sending its fragments to the
  -- members of the set, each once and in their own order, and the groups of the message are that
  -- set again.
  pub send_notification-send_to_set :
      (q : GroupSet) (l : Link)
      → Quot.mk o.groups ≡ q
      → All (λ g. length g ≤ env.max_group_name - 1) o.groups
      → (send_notification env serialize o l ≡ send_to_set q l)
        × IsSorted (listed q)
        × (Quot.mk (listed q) ≡ q)
  unfolding send_notification listed
  send_notification-send_to_set q l same fit =
      let m = set_qos o.qos new_message in
      let groups = add_groups_fit env o.groups m fit in
      (
        subst (λ q. send_notification env serialize o l ≡ send_to_set q l) same
            (ground (arith, groups)),
        subst (λ q. IsSorted (listed q)) same (add_all-IsSorted o.groups [] tt),
        mk-listed q,
      )
