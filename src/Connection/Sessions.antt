-- ===== src/Connection/Sessions.antt =====
-- The order of the client library's calls: what a session with the daemon allows, and that every
-- operation of the connection keeps to it.
use rsb_spread_cpp.Base.{
  refl, ℕ, suc, ◌≡◌, refl, ite, true, Option, none, some, List, [], ◌∷◌, arith, if◌then◌else◌, ℤ,
  ℤ_discrete, Text,
}
use rsb_spread_cpp.Spread.{
  Call, connect, disconnect, multicast, multigroup_multicast, History, Received, Env,
}
use rsb_spread_cpp.Message.{Message, new_message}
use rsb_spread_cpp.Connection.{
  new_connection, Link, Reception, activate, deactivate, destroy, join, leave, receive,
  receive_regular, copy_groups, send_to, send, interrupt_receive,
}

-- The handle of the session that is open after these calls.
abbrev pub session : Env → History → Option ℤ
session env [] = none
session env (connect t ∷ h) =
    ite (ℤ_discrete (env.sp_connect h t).ret env.accept_session) (some (env.sp_connect h t).mailbox)
      none
session env (disconnect m ∷ h) = none
session env (Call.join m g ∷ h) = session env h
session env (Call.leave m g ∷ h) = session env h
session env (Call.receive m ∷ h) = session env h
session env (multicast m q g d ∷ h) = session env h
session env (multigroup_multicast m q gs d ∷ h) = session env h

-- A session begins where none is open, and every other call names the open one.
abbrev Allowed : Call → Option ℤ → Type 0
Allowed (connect t) o = o ≡ none
Allowed (disconnect m) o = o ≡ some m
Allowed (Call.join m g) o = o ≡ some m
Allowed (Call.leave m g) o = o ≡ some m
Allowed (Call.receive m) o = o ≡ some m
Allowed (multicast m q g d) o = o ≡ some m
Allowed (multigroup_multicast m q gs d) o = o ≡ some m

abbrev pub IsDisciplined : Env → History → Type 0
IsDisciplined env [] = Unit {0}
IsDisciplined env (c ∷ h) = Allowed c (session env h) × IsDisciplined env h

-- The connection believes to be connected exactly while its session is open.
pub record IsValid (env : Env) (l : Link) : Type 0 where
  pub in_session : session env l.history ≡ (if l.connected then some l.mailbox else none)
  pub disciplined : IsDisciplined env l.history

pub data Operation : Type 0 where
  activates deactivates destroys receives interrupts : Operation
  joins leaves : Text → Operation
  sends : Message → Operation

-- The state behind an operation, whether it returned or threw.
pub step : Env → Operation → Link → Link
step env activates l = (activate env l).1
step env deactivates l = (deactivate l).1
step env destroys l = (destroy l).1
step env receives l = (receive env (record { link = l; message = new_message })).1.link
step env interrupts l = (interrupt_receive env l).1
step env (joins g) l = (join env g l).1
step env (leaves g) l = (leave env g l).1
step env (sends m) l = (send env m l).1

pub run : Env → List Operation → Link → Link
run env [] l = l
run env (o ∷ os) l = run env os (step env o l)

module _ (env : Env) where
  pub copy_groups-state : (i : ℕ) (gs : List Text) (l : Link) → (copy_groups env i gs l).1 ≡ l
  unfolding copy_groups
  copy_groups-state i [] l = refl
  copy_groups-state i (g ∷ gs) l = ground (arith, copy_groups-state (suc i) gs l)

  activate-IsValid : (l : Link) → IsValid env l → IsValid env (activate env l).1
  unfolding activate
  activate-IsValid l v = ground arith

  deactivate-IsValid : (l : Link) → IsValid env l → IsValid env (deactivate l).1
  unfolding deactivate
  deactivate-IsValid l v = ground arith

  join-IsValid : (g : Text) (l : Link) → IsValid env l → IsValid env (join env g l).1
  unfolding join
  join-IsValid g l v = ground arith

  leave-IsValid : (g : Text) (l : Link) → IsValid env l → IsValid env (leave env g l).1
  unfolding leave
  leave-IsValid g l v = ground arith

  interrupt_receive-IsValid : (l : Link) → IsValid env l → IsValid env (interrupt_receive env l).1
  unfolding interrupt_receive
  interrupt_receive-IsValid l v = ground arith

  pub receive_regular-link :
      (r : Received) (s : Reception) → (receive_regular env r s).1.link ≡ s.link
  unfolding receive_regular
  receive_regular-link r s = ground arith

  receive-IsValid : (s : Reception) → IsValid env s.link → IsValid env (receive env s).1.link
  unfolding receive
  receive-IsValid s v = grind (arith, receive_regular-link)

  send_to-IsValid :
      (m : Message) (gs : List Text) (l : Link)
      → IsValid env l
      → l.connected ≡ true
      → IsValid env (send_to env m gs l).1
  unfolding send_to
  send_to-IsValid m [] l v on = ground arith
  send_to-IsValid m (g ∷ []) l v on = ground arith
  send_to-IsValid m (g ∷ h ∷ gs) l v on = ground (arith, copy_groups-state 0 (g ∷ h ∷ gs) l)

  send-IsValid : (m : Message) (l : Link) → IsValid env l → IsValid env (send env m l).1
  unfolding send
  send-IsValid m l v = ground (arith, send_to-IsValid m m.groups l)

  step-IsValid : (o : Operation) (l : Link) → IsValid env l → IsValid env (step env o l)
  unfolding step destroy
  step-IsValid activates l v = activate-IsValid l v
  step-IsValid deactivates l v = deactivate-IsValid l v
  step-IsValid destroys l v = ground (arith, deactivate-IsValid l v)
  step-IsValid receives l v = receive-IsValid _ v
  step-IsValid interrupts l v = interrupt_receive-IsValid l v
  step-IsValid (joins g) l v = join-IsValid g l v
  step-IsValid (leaves g) l v = leave-IsValid g l v
  step-IsValid (sends m) l v = send-IsValid m l v

  run-IsValid : (os : List Operation) (l : Link) → IsValid env l → IsValid env (run env os l)
  unfolding run
  run-IsValid [] l v = v
  run-IsValid (o ∷ os) l v = run-IsValid os (step env o l) (step-IsValid o l v)

-- A connection that has made no call yet.
abbrev pub fresh : Env → Text → ℕ → Link
fresh env host port = record { connection = new_connection env host port; history = [] }

-- Whatever operations a new connection goes through, and however the daemon answers them, its calls
-- keep to the order that the client library asks for: a session is opened only where none is open,
-- every other call names the handle of the session that is open, and the connection counts as
-- active exactly while there is one, under that handle.
pub run-fresh-IsValid :
    (env : Env) (host : Text) (port : ℕ) (os : List Operation)
    → IsValid env (run env os (fresh env host port))
run-fresh-IsValid env host port os = run-IsValid env os (fresh env host port) start
  where
    start : IsValid env (fresh env host port)
    start = unfold new_connection in record { in_session = refl; disciplined = tt }
