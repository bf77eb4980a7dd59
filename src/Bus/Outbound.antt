-- ===== src/Bus/Outbound.antt =====
-- What the bus sends for a notification: one call for each fragment, in their order.
use rsb_spread_cpp.Base.{
  ℕ, ◌-◌, ◌≤◌, ◌≡◌, refl, sym, ◌∙◌, subst, false, Option, none, some, List, [], ◌∷◌, arith, length,
  All, Text, bytes, protocol_error, Result, ok, throw, fault, ◌>>◌, >>=-ok,
}
use rsb_spread_cpp.Spread.{Env}
use rsb_spread_cpp.Protocol.{Fragment}
use rsb_spread_cpp.Message.{Message, new_message, set_qos, set_data, add_group}
use rsb_spread_cpp.Message.Adding.{add_all, add_group_fits}
use rsb_spread_cpp.Notifications.{Outgoing}
use rsb_spread_cpp.Connection.{Link, send}
use rsb_spread_cpp.Connection.Sending.{Called, transmission, send-Sends}
use rsb_spread_cpp.Bus.{numbered, send_serialized, send_fragments, add_groups, send_notification}

module _ (env : Env) (serialize : Fragment → Option Text) (n : ℕ) where
  -- From one state of the connection to another, the fragments were sent in their order, each with
  -- their number written into it, and each in one call to the groups of the message.
  pub data Sent (m : Message) : List Fragment → Link → Link → Type 0 where
    none_left : {l : Link} → Sent m [] l l
    one_sent :
        {f : Fragment} {fs : List Fragment} {l j k : Link} {d : Text}
        → serialize (numbered env serialize n f) ≡ some d
        → Called env l (transmission env l (set_data d m) m.groups) false j
        → Sent m fs j k
        → Sent m (f ∷ fs) l k

  abbrev pub IsReturn : Result (Unit {0}) → Type 0
  IsReturn (ok _) = Unit {0}
  IsReturn _ = ⊥

  -- Some of the fragments were sent, and the next one was not: it cannot be written, or its sending
  -- ended with this result.
  pub data Stopped (m : Message) (r : Result (Unit {0}))
      : List Fragment → Link → Link → Type 0 where
    not_written :
        {f : Fragment} {fs : List Fragment} {l : Link}
        → serialize (numbered env serialize n f) ≡ none
        → r ≡ throw (protocol_error (bytes "Failed to write notification to stream"))
        → Stopped m r (f ∷ fs) l l
    not_sent :
        {f : Fragment} {fs : List Fragment} {l j : Link} {d : Text}
        → serialize (numbered env serialize n f) ≡ some d
        → send env (set_data d m) l ≡ (r, j)
        → ¬ IsReturn r
        → Stopped m r (f ∷ fs) l j
    stopped_later :
        {f : Fragment} {fs : List Fragment} {l j k : Link} {d : Text}
        → serialize (numbered env serialize n f) ≡ some d
        → Called env l (transmission env l (set_data d m) m.groups) false j
        → Stopped m r fs j k
        → Stopped m r (f ∷ fs) l k

  abbrev pub SentAll : Message → List Fragment → Link → Result (Unit {0}) × Link → Type 0
  SentAll m fs l (ok _, k) = Sent m fs l k
  SentAll m fs l (throw e, k) = Stopped m (throw e) fs l k
  SentAll m fs l (fault x, k) = Stopped m (fault x) fs l k

  send-Called :
      (d : Text) (m : Message) (l j : Link)
      → send env (set_data d m) l ≡ (ok tt, j)
      → Called env l (transmission env l (set_data d m) m.groups) false j
  send-Called d m l j e = ground (arith, send-Sends env l (set_data d m))

  pub send_fragments-SentAll :
      (m : Message) (fs : List Fragment) (l : Link)
      → SentAll m fs l (send_fragments env serialize n m fs l)
  unfolding send_fragments
  send_fragments-SentAll m [] l = none_left
  send_fragments-SentAll m (f ∷ fs) l =
      serialized (serialize (numbered env serialize n f)) refl (send_fragments-SentAll m fs)
    where
      consed :
          (d : Text) (j : Link) (r : Result (Unit {0}) × Link)
          → serialize (numbered env serialize n f) ≡ some d
          → send env (set_data d m) l ≡ (ok tt, j)
          → SentAll m fs j r
          → SentAll m (f ∷ fs) l r
      consed d j (ok _, k) e s h = one_sent e (send-Called d m l j s) h
      consed d j (throw x, k) e s h = stopped_later e (send-Called d m l j s) h
      consed d j (fault x, k) e s h = stopped_later e (send-Called d m l j s) h

      sent :
          (d : Text) (r : Result (Unit {0}) × Link)
          → serialize (numbered env serialize n f) ≡ some d
          → send env (set_data d m) l ≡ r
          → ((j : Link) → SentAll m fs j (send_fragments env serialize n m fs j))
          → SentAll m (f ∷ fs) l (elim r.0 [
            | ok _ ↦ send_fragments env serialize n m fs r.1
            | throw e ↦ (throw e, r.1)
            | fault x ↦ (fault x, r.1)
          ])
      sent d (ok _, j) e s h = consed d j (send_fragments env serialize n m fs j) e s (h j)
      sent d (throw x, j) e s h = not_sent e s (λ u. u)
      sent d (fault x, j) e s h = not_sent e s (λ u. u)

      serialized :
          (o : Option Text)
          → serialize (numbered env serialize n f) ≡ o
          → ((j : Link) → SentAll m fs j (send_fragments env serialize n m fs j))
          → SentAll m
              (f ∷ fs)
              l
              ((send_serialized env serialize m o >> send_fragments env serialize n m fs) l)
      serialized none e h = not_written e refl
      serialized (some d) e h = sent d (send env (set_data d m) l) e refl h

-- The message that the bus sends a notification with.
abbrev pub addressed : {Scope : Type 0} → Outgoing Scope → Message
addressed o = record (set_qos o.qos new_message) { groups = add_all o.groups [] }

abbrev pub Transmits :
    {Scope : Type 0}
    → Env
    → (Fragment → Option Text)
    → Outgoing Scope
    → Link
    → Result (Unit {0}) × Link
    → Type 0
Transmits env serialize o l r =
    SentAll env serialize (length o.fragments) (addressed o) o.fragments l r

pub add_groups_fit :
    (env : Env) (gs : List Text) (m : Message)
    → All (λ g. length g ≤ env.max_group_name - 1) gs
    → add_groups env gs m ≡ (ok tt, record m { groups = add_all gs m.groups })
unfolding add_groups
add_groups_fit env [] m fit = refl
add_groups_fit env (g ∷ gs) m fit =
    >>=-ok (add_group env g) (λ _. add_groups env gs) m (add_group_fits env g m fit.0)
    ∙ add_groups_fit env gs _ fit.1

-- If its group names fit, sending a notification sends its fragments in their order, each with
-- their number written into it, each in one call to exactly those groups; if it does not
-- return, that is because a fragment could not be written or because its sending did not
-- return, and exactly the fragments before that one were sent.
pub send_notification-Transmits :
    {Scope : Type 0} (env : Env) (serialize : Fragment → Option Text) (o : Outgoing Scope)
    (l : Link)
    → All (λ g. length g ≤ env.max_group_name - 1) o.groups
    → Transmits env serialize o l (send_notification env serialize o l)
unfolding send_notification
send_notification-Transmits env serialize o l fit =
    subst
      (λ (r : Result (Unit {0}) × Message). Transmits env serialize o l (elim r.0 [
        | ok _ ↦ send_fragments env serialize (length o.fragments) r.1 o.fragments l
        | throw e ↦ (throw e, l)
        | fault x ↦ (fault x, l)
      ]))
      (sym (add_groups_fit env o.groups (set_qos o.qos new_message) fit))
      (send_fragments-SentAll env serialize (length o.fragments) (addressed o) o.fragments l)
