-- ===== src/Connection/Inactive.antt =====
-- What the operations of a connection do when it is not active, and when it already is.
use rsb_spread_cpp.Base.{
  IsIllegalState, ◌≡◌, ◌≢◌, ◌⊎◌, true, false, ◌∷◌, arith, Text, c_str, Result, ok, throw, fault,
  IsCommError, Refused,
}
use rsb_spread_cpp.Spread.{connect, Env}
use rsb_spread_cpp.Message.{Message}
use rsb_spread_cpp.Connection.{
  Link, Reception, activate, deactivate, join, leave, receive, send, interrupt_receive,
}

-- On a connection that is not active, every operation but `activate` throws
-- `IllegalStateException`, calls nothing and changes nothing.
pub inactive-Refused :
    (env : Env) (s : Reception) (g : Text) (m : Message)
    → s.link.connected ≡ false
    → Refused s.link (deactivate s.link)
      × Refused s.link (join env g s.link)
      × Refused s.link (leave env g s.link)
      × Refused s (receive env s)
      × Refused s.link (send env m s.link)
      × Refused s.link (interrupt_receive env s.link)
unfolding deactivate join leave receive send interrupt_receive
inactive-Refused env s g m off = ground arith

-- How `activate` may end.
abbrev pub Activates : Env → Link → Result (Unit {0}) × Link → Type 0
Activates env l (ok _, k) =
    (l.connected ≡ false)
    × (k.connected ≡ true)
    × (k.history ≡ connect (c_str l.daemon_name) ∷ l.history)
    × ((env.sp_connect l.history (c_str l.daemon_name)).ret ≡ env.accept_session)
    × (k.private_group ≡ (env.sp_connect l.history (c_str l.daemon_name)).private_group)
Activates env l (throw e, k) =
    ((l.connected ≡ true) × IsIllegalState e × (k ≡ l))
    ⊎ ((l.connected ≡ false)
        × (k.connected ≡ false)
        × (k.history ≡ connect (c_str l.daemon_name) ∷ l.history)
        × ((env.sp_connect l.history (c_str l.daemon_name)).ret ≢ env.accept_session)
        × IsCommError e)
Activates env l (fault x, k) = ⊥

-- `activate` returns exactly if the connection was not active and the daemon accepted the session,
-- and the connection is then active under the group that the daemon gave it. On an active
-- connection it throws `IllegalStateException` and changes nothing; where the daemon does not
-- accept, it throws `CommException` and the connection stays inactive.
pub activate-Activates : (env : Env) (l : Link) → Activates env l (activate env l)
unfolding activate
activate-Activates env l = ground arith
