-- ===== src/Bus/Lifecycle.antt =====
-- The bus is active exactly while its connection is, and can always be deactivated then.
use rsb_spread_cpp.Base.{
  ◌≡◌, ◌≢◌, true, false, none, some, [], ◌∷◌, arith, c_str, Result, ok, throw, fault,
  IsIllegalState,
}
use rsb_spread_cpp.Spread.{disconnect, multicast, History, Env}
use rsb_spread_cpp.Connection.{Link, interrupt_receive}
use rsb_spread_cpp.Connection
use rsb_spread_cpp.Pool.{finished}
use rsb_spread_cpp.Bus.{Bus, connection, cancel_receiver, deactivate}

-- The bus agrees with its connection, and an active one has a receiver.
pub record IsConsistent {Sinks : Type 0} (b : Bus Sinks) : Type 0 where
  pub agrees : (connection b).connected ≡ b.active
  pub receives : b.active ≡ true → b.receiver ≢ none

-- The calls that end a session: the message that wakes the receiver up, then the disconnection.
abbrev pub farewell : Env → Link → History
farewell env l =
    disconnect l.mailbox
    ∷ multicast l.mailbox env.reliable_mess (c_str l.private_group) []
    ∷ l.history

abbrev pub Deactivates : {Sinks : Type 0} → Env → Bus Sinks → Result (Unit {0}) × Bus Sinks → Type 0
Deactivates env b (ok _, c) =
    (b.active ≡ true)
    × (c.active ≡ false)
    × ((connection c).connected ≡ false)
    × (c.receiver ≡ some finished)
    × ((connection c).history ≡ farewell env (connection b))
    × (c.memberships.groups ≡ b.memberships.groups)
    × (c.sinks ≡ b.sinks)
Deactivates env b (throw e, c) = (b.active ≡ false) × IsIllegalState e × (c ≡ b)
Deactivates env b (fault x, c) = ⊥

-- Deactivating a consistent bus returns exactly if it is active: it cancels the receiver,
-- wakes it up with a message to the session's own group, and then disconnects; the counts of
-- the groups and the sinks stay. On an inactive bus it throws `IllegalStateException` and
-- changes nothing. There is no other end.
pub deactivate-Deactivates :
    {Sinks : Type 0} (env : Env) (b : Bus Sinks)
    → IsConsistent b
    → Deactivates env b (deactivate env b)
unfolding deactivate cancel_receiver interrupt_receive Connection.deactivate
deactivate-Deactivates env b v = ground (arith, v.agrees, v.receives)
