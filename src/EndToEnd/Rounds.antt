-- ===== src/EndToEnd/Rounds.antt =====
-- From the calls of one process to the sinks of another: the rounds of a receiver that gets the
-- messages of one event.
use rsb_spread_cpp.Base.{
  ◌>>◌, ℕ, ◌+◌, ◌≤◌, ◌<◌, ◌^◌, ◌≡◌, ◌≢◌, refl, sym, ap, ◌∙◌, subst, true, Option, none, some, List,
  [], ◌∷◌, map, arith, length, length-map, if_pos, All, Text, Text_discrete, lookup, Result, ok,
  Action, pure, >>=-ok, and_then,
}
use rsb_spread_cpp.Spread.{Call, Env}
use rsb_spread_cpp.Protocol.{Fragment}
use rsb_spread_cpp.Message.{Message, new_message, set_data}
use rsb_spread_cpp.Message.Groups.{IsSorted}
use rsb_spread_cpp.Notifications.{Transported}
use rsb_spread_cpp.GroupNameCache.{Naming}
use rsb_spread_cpp.Connection
use rsb_spread_cpp.Connection.{Link, log_call}
use rsb_spread_cpp.Connection.Sending.{transmission}
use rsb_spread_cpp.Connection.Delivery.{Whole, Delivers, Delivers-Carries, receive-received}
use rsb_spread_cpp.Pool.{Pool, key_of}
use rsb_spread_cpp.Pool.Isolation.{Arrivals}
use rsb_spread_cpp.Deserializing.{handle_message}
use rsb_spread_cpp.Deserializing.Reception.{receptions, received_last, message_of}
use rsb_spread_cpp.Deserializing.{incoming, transport}
use rsb_spread_cpp.Pool.Reassembly.{fragments}
use rsb_spread_cpp.Message.Adding.{add_all-IsSorted}
use rsb_spread_cpp.Bus.{numbered}
use rsb_spread_cpp.Bus.Outbound.{addressed}
use rsb_spread_cpp.Notifications.{Outgoing}
use rsb_spread_cpp.OutConnector.{Events, Connector, populate, cut_wire}
use rsb_spread_cpp.OutConnector.Cutting.{Fits}
use rsb_spread_cpp.EndToEnd.Answers.{receptions-whole, some_fragment, of_key_same}
use rsb_spread_cpp.EndToEnd.{length-Perm}
use mathlib.Core.List.{Permᴰ}
use rsb_spread_cpp.Receiver.{Handler, Receiver, execute, attempt, receive_message, notify}

module _ {Scope H : Type 0} (env : Env) (naming : Naming Scope) (parse : Text → Option Fragment)
    (serialize : Fragment → Text) (handler : Handler Scope H) where
  -- Rounds at these times; the executor starts the next one when one has returned.
  unfoldable pub rounds : List ℕ → Action (Receiver H) (Unit {0})
  rounds [] = pure tt
  rounds (now ∷ times) = execute env naming parse handler now >> rounds times

  abbrev pub times : Arrivals → List ℕ
  times = map (λ a. a.0)

  -- The calls that send these fragments with this message, on some connection, are what the
  -- daemon hands over, one at each call of `SP_receive`.
  abbrev pub Arrives : Message → Link → Arrivals → Link → Type 0
  Arrives m sender [] l = Unit {0}
  Arrives m sender ((now, f) ∷ es) l =
      Delivers env (transmission env sender (set_data (serialize f) m) m.groups)
        (env.sp_receive l.history l.mailbox)
      × Arrives m sender es (log_call (Call.receive l.mailbox) l)

  -- What the rounds for these messages leave, but for the pool.
  abbrev pub HandsOn : Transported Scope → ℕ → Receiver H → Result (Unit {0}) × Receiver H → Type 0
  HandsOn n k s r =
      (r.0 ≡ ok tt)
      × (r.1.handled ≡ (handler.handle_incoming n s.handled).1)
      × (r.1.cancelled ≡ s.cancelled)
      × (r.1.link.connection ≡ s.link.connection)
      × (length r.1.link.history ≡ k + length s.link.history)

  module _ (m : Message) (sender : Link) (sorted : IsSorted m.groups)
      (whole : Whole env m.groups) where
    receive_fragment :
        (f : Fragment) (l : Link)
        → Delivers env
            (transmission env sender (set_data (serialize f) m) m.groups)
            (env.sp_receive l.history l.mailbox)
        → m.groups ≢ l.private_group ∷ []
        → l.connected ≡ true
        → Connection.receive env (record { link = l; message = new_message }) ≡ (
          ok tt,
          record {
            link = log_call (Call.receive l.mailbox) l;
            message = message_of env naming parse serialize m.groups f;
          },
        )
    receive_fragment f l d other on =
        receive-received env (record { link = l; message = new_message }) (set_data (serialize f) m)
          sorted whole (Delivers-Carries env sender (set_data (serialize f) m) m.groups _ whole d)
          refl other on

    module _ (now : ℕ) (f : Fragment) (s : Receiver H)
        (d : Delivers env
          (transmission env sender (set_data (serialize f) m) m.groups)
          (env.sp_receive s.link.history s.link.mailbox))
        (other : m.groups ≢ s.link.private_group ∷ []) (on : s.link.connected ≡ true) where
      -- The receiver after this message, up to what it calls.
      abbrev pub taken : Receiver H
      taken = record s {
        link = log_call (Call.receive s.link.mailbox) s.link;
        pool =
            (handle_message env naming parse now (message_of env naming parse serialize m.groups f)
              s.pool).1;
      }

      pub execute_incomplete :
          (handle_message env naming parse now
              (message_of env naming parse serialize m.groups f)
              s.pool).0
            ≡ ok none
          → execute env naming parse handler now s ≡ (ok tt, taken)
      unfolding execute attempt receive_message notify
      execute_incomplete h = ground (arith, receive_fragment f s.link d other on)

      pub execute_complete :
          (n : Transported Scope)
          → (handle_message env naming parse now
              (message_of env naming parse serialize m.groups f)
              s.pool).0
            ≡ ok (some n)
          → (handler.handle_incoming n s.handled).0 ≡ ok tt
          → execute env naming parse handler now s
            ≡ (ok tt, record taken { handled = (handler.handle_incoming n s.handled).1 })
      unfolding execute attempt receive_message notify
      execute_complete n h told = ground (arith, receive_fragment f s.link d other on)

    receptions_hit :
        (key : Text) (now : ℕ) (f : Fragment) (es : Arrivals) (p : Pool)
        → key_of f ≡ key
        → receptions env naming parse serialize m.groups key ((now, f) ∷ es) p
          ≡ (handle_message env naming parse now
              (message_of env naming parse serialize m.groups f)
              p).0
            ∷ receptions env naming parse serialize m.groups key es
                (handle_message env naming parse now
                  (message_of env naming parse serialize m.groups f)
                  p).1
    unfolding receptions
    receptions_hit key now f es p e = if_pos (Text_discrete (key_of f) key) e _ _

    rounds-HandsOn :
        (key : Text) (n : Transported Scope) (es : Arrivals) (s : Receiver H)
        → 1 ≤ length es
        → All (λ a. key_of a.1 ≡ key) es
        → Arrives m sender es s.link
        → m.groups ≢ s.link.private_group ∷ []
        → s.link.connected ≡ true
        → receptions env naming parse serialize m.groups key es s.pool
          ≡ received_last env naming parse serialize (ok (some n)) (length es)
        → (handler.handle_incoming n s.handled).0 ≡ ok tt
        → HandsOn n (length es) s (rounds (times es) s)
    unfolding rounds
    rounds-HandsOn key n [] s some_left keys d other on answers told = absurd (omega arith)
    rounds-HandsOn key n ((now, f) ∷ []) s some_left keys d other on answers told =
        let e = sym (receptions_hit key now f [] s.pool keys.0) ∙ answers in
        let x = execute_complete now f s d.0 other on n (ground arith) told in ground arith
    rounds-HandsOn key n ((now, f) ∷ b ∷ es) s some_left keys d other on answers told =
        let e = sym (receptions_hit key now f (b ∷ es) s.pool keys.0) ∙ answers in
        let x = execute_incomplete now f s d.0 other on (ground arith) in
        let t = taken now f s d.0 other on in
        let rest =
          rounds-HandsOn key n (b ∷ es) t (omega arith) keys.1 d.1 other on (ground arith) told in
        subst (HandsOn n (length ((now, f) ∷ b ∷ es)) s)
          (sym (>>=-ok (execute env naming parse handler now) (λ _. rounds (times (b ∷ es))) s x))
          (rest.0, rest.1, rest.2, rest.3, omega (arith, rest.4))

-- All messages of an event that was cut into fragments, fewer than 2^32, reach a receiver, in
-- any order and with no other between: the calls that send the fragments, as the bus numbers
-- them, are what the daemon hands over. Then as many rounds of the receiver return, and what
-- they have called is the handler, exactly once, with the payload that the sender serialized and
-- the scope of the event; the session of the receiver stays, each round made one call, and the
-- task is cancelled only if it was. This asks that the meta data leave more than the minimal
-- space in every fragment and no size wraps around, that what is written of a fragment is read
-- back, that the fragments have one key, under which the receiver's pool holds nothing, that no
-- group name is too long or holds a NUL byte, that the message is not for the receiver's private
-- group alone, that the scope can be parsed, and that the handler returns.
pub rounds-cut_wire :
    {Scope Event H : Type 0} (env : Env) (events : Events Scope Event) (naming : Naming Scope)
    (serialize : Fragment → Text) (parse : Text → Option Fragment) (handler : Handler Scope H)
    (c : Connector Scope) (e : Event) (schema wire : Text) (o : Outgoing Scope) (sender : Link)
    (scope : Scope) (key : Text) (es : Arrivals) (s : Receiver H)
    → (round_trip : (f : Fragment) → parse (serialize f) ≡ some f) → Fits env events c e schema wire
    → cut_wire env events c e (schema, wire) ≡ ok o.fragments
    → length o.fragments < 2 ^ 32
    → Whole env (addressed o).groups
    → lookup Text_discrete key s.pool.assemblies ≡ none
    → Permᴰ
        (map (numbered env (λ f. some (serialize f)) (length o.fragments)) o.fragments)
        (fragments es)
    → All (λ a. key_of a.1 ≡ key) es
    → Arrives env naming parse serialize handler (addressed o) sender es s.link
    → (addressed o).groups ≢ s.link.private_group ∷ []
    → s.link.connected ≡ true
    → naming.parse_scope (populate env events e schema 0).notification.scope ≡ ok scope
    → let n = record (populate env events e schema 0).notification { payload = wire } in
      (handler.handle_incoming (transport env naming parse n scope) s.handled).0 ≡ ok tt
      → HandsOn env naming parse serialize handler
          (transport env naming parse n scope)
          (length es)
          s
          (rounds env naming parse serialize handler
            (times env naming parse serialize handler es)
            s)
unfolding incoming
rounds-cut_wire env events naming serialize parse handler c e schema wire o sender scope key es s
      round_trip fits cut small whole free arrived keys d other on parsed told =
    let n = record (populate env events e schema 0).notification { payload = wire } in
    let gs = (addressed o).groups in
    let count : length es ≡ length o.fragments =
      sym (length-map (λ a. a.1) es) ∙ sym (length-Perm arrived) ∙ length-map _ o.fragments in
    let answers =
      receptions-whole env events naming serialize parse round_trip c e schema wire fits gs key
        o.fragments es s.pool cut small free
        (subst
          (λ ds.
            Permᴰ (map (numbered env (λ f. some (serialize f)) (length o.fragments)) o.fragments)
              (fragments ds))
          (sym (of_key_same key es keys)) arrived) in
    let some_left =
      some_fragment env events naming serialize parse round_trip c e schema wire fits gs key
        o.fragments cut in
    rounds-HandsOn env naming parse serialize handler (addressed o) sender
      (add_all-IsSorted o.groups [] tt) whole key (transport env naming parse n scope) es s
      (omega (arith, count, some_left)) keys d other on
      (answers
        ∙ ap
            (λ r.
              received_last env naming parse serialize
                (and_then r (λ s. ok (some (transport env naming parse n s)))) (length o.fragments))
            parsed
        ∙ ap (received_last env naming parse serialize _) (sym count))
      told
