-- ===== src/Connection/Delivery.antt =====
-- A message that is sent and that the daemon delivers as it was sent arrives whole.
use rsb_spread_cpp.Base.{
  ◌-◌, ◌≤◌, ◌≡◌, refl, ap, ap₂, ◌∙◌, ◌≢◌, true, Option, none, some, List, [], ◌∷◌, map, arith,
  length, take, All, pos, Text, c_str, thread_interrupted, ok, throw, >>=-ok,
}
use rsb_spread_cpp.Spread.{Call, multicast, multigroup_multicast, History, Received, Env}
use rsb_spread_cpp.Message.{Message, new_message, regular, unreliable, add_group}
use rsb_spread_cpp.Message.Groups.{IsSorted}
use rsb_spread_cpp.Message.Adding.{add_group_fits, add_all, add_all_nil}
use rsb_spread_cpp.Connection.{
  interrupt_receive, store_regular, Link, Reception, add_received, receive_regular, receive, send,
  log_call,
}
use rsb_spread_cpp.Connection.Sending.{send-Sends, transmission}

module _ (env : Env) where
  -- No name is cut off at a NUL byte, and all are short enough for `addGroup`.
  abbrev pub Whole : List Text → Type 0
  Whole = All (λ g. (c_str g ≡ g) × (length g ≤ env.max_group_name - 1))

  -- A delivery to these groups with this payload, as a regular message.
  pub record Carries (gs : List Text) (d : Text) (r : Received) : Type 0 where
    pub all_read : r.ret ≡ pos (length d)
    pub same_payload : r.buffer ≡ d
    pub same_groups : r.groups ≡ gs
    pub same_count : r.num_groups ≡ pos (length gs)
    pub is_regular : env.is_regular_mess r.service_type ≡ true

  -- The daemon hands over what a call multicast.
  abbrev pub Delivers : Option Call → Received → Type 0
  Delivers (some (multicast b s g d)) r = Carries (g ∷ []) d r
  Delivers (some (multigroup_multicast b s gs d)) r = Carries gs d r
  Delivers _ r = ⊥

  pub map-c_str : (gs : List Text) → Whole gs → map c_str gs ≡ gs
  map-c_str [] w = refl
  map-c_str (g ∷ gs) w = ap₂ ◌∷◌ w.0.0 (map-c_str gs w.1)

  pub Delivers-Carries :
      (l : Link) (m : Message) (gs : List Text) (r : Received)
      → Whole gs
      → Delivers (transmission env l m gs) r
      → Carries gs m.payload r
  Delivers-Carries l m [] r w d = elim d [ ]
  Delivers-Carries l m (g ∷ []) r w d = rw (w.0.0) at d
  Delivers-Carries l m (g ∷ h ∷ gs) r w d = rw (map-c_str (g ∷ h ∷ gs) w) at d

  add_received-add_all :
      (gs : List Text) (m : Message)
      → Whole gs
      → add_received env (length gs) gs m ≡ (ok tt, record m { groups = add_all gs m.groups })
  unfolding add_received
  add_received-add_all [] m w = refl
  add_received-add_all (g ∷ gs) m w = rw w.0.0 (
      >>=-ok (add_group env g) (λ _. add_received env (length gs) gs) m
        (add_group_fits env g m w.0.1)
      ∙ add_received-add_all gs _ w.1)

  take_all {ℓ} : {A : Type ℓ} (xs : List A) → take (length xs) xs ≡ xs
  take_all [] = refl
  take_all (x ∷ xs) = ap (◌∷◌ x) (take_all xs)

  -- The message as its receiver sees it: the quality of service does not travel.
  abbrev pub received : Message → Message
  received m = record { type = regular; qos = unreliable; payload = m.payload; groups = m.groups }

  module _ (s : Reception) (m : Message) (r : Received) (sorted : IsSorted m.groups)
      (w : Whole m.groups) (c : Carries m.groups m.payload r)
      (blank : s.message ≡ new_message) where
    store_regular-received : store_regular env r s ≡ (ok tt, record s { message = received m })
    unfolding store_regular
    store_regular-received = ground (
      arith,
      c.all_read,
      c.same_count,
      take_all m.payload,
      add_received-add_all m.groups
          (record { type = regular; qos = unreliable; payload = m.payload; groups = [] }) w,
      add_all_nil m.groups sorted,
    )

    receive_regular-received :
        m.groups ≢ s.link.private_group ∷ []
        → receive_regular env r s ≡ (ok tt, record s { message = received m })
    unfolding receive_regular
    receive_regular-received other = ground (arith, store_regular-received)

  abbrev pub latest : History → Option Call
  latest [] = none
  latest (c ∷ h) = some c

  latest-send :
      (l : Link) (m : Message)
      → (send env m l).0 ≡ ok tt
      → latest (send env m l).1.history ≡ transmission env l m m.groups
  latest-send l m e = ground (arith, send-Sends env l m)

  pub receive-received :
      (s : Reception) (m : Message)
      → IsSorted m.groups
      → Whole m.groups
      → Carries m.groups m.payload (env.sp_receive s.link.history s.link.mailbox)
      → s.message ≡ new_message
      → m.groups ≢ s.link.private_group ∷ []
      → s.link.connected ≡ true
      → receive env s ≡ (
        ok tt,
        record { link = log_call (Call.receive s.link.mailbox) s.link; message = received m },
      )
  unfolding receive
  receive-received s m sorted w c blank other on =
      let r = env.sp_receive s.link.history s.link.mailbox in
      ground (
        arith,
        c.all_read,
        c.is_regular,
        receive_regular-received (record s { link = log_call (Call.receive s.link.mailbox) s.link })
            m r sorted w c blank other,
      )

-- A message whose sending returned, and whose call the daemon delivers as it is, is received with
-- the same groups and the same payload, as a regular message. This asks that no group name is too
-- long or holds a NUL byte, that the receiver's message is new and its connection active, and that
-- the message is not for the receiver's private group alone.
pub receive-send :
    (env : Env) (l : Link) (s : Reception) (m : Message)
    → IsSorted m.groups
    → Whole env m.groups
    → (send env m l).0 ≡ ok tt
    → Delivers env
        (latest env (send env m l).1.history)
        (env.sp_receive s.link.history s.link.mailbox)
    → s.message ≡ new_message
    → m.groups ≢ s.link.private_group ∷ []
    → s.link.connected ≡ true
    → receive env s ≡ (
      ok tt,
      record { link = log_call (Call.receive s.link.mailbox) s.link; message = received env m },
    )
receive-send env l s m sorted w sent d blank other on =
    receive-received env s m sorted w
      (Delivers-Carries env l m m.groups _ w (rw (latest-send env l m sent) at d)) blank other on

-- What `interruptReceive` sends stops a receiver of the same session to which the daemon delivers
-- it: `receive` throws `thread_interrupted` and leaves the message alone.
pub receive-interrupt_receive :
    (env : Env) (l : Link) (s : Reception)
    → (interrupt_receive env l).0 ≡ ok tt
    → Delivers env
        (latest env (interrupt_receive env l).1.history)
        (env.sp_receive s.link.history s.link.mailbox)
    → s.link.private_group ≡ l.private_group
    → c_str l.private_group ≡ l.private_group
    → s.link.connected ≡ true
    → receive env s ≡ (
      throw thread_interrupted,
      record s { link = log_call (Call.receive s.link.mailbox) s.link },
    )
unfolding interrupt_receive receive receive_regular
receive-interrupt_receive env l s sent d same whole on = ground arith
