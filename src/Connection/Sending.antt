-- ===== src/Connection/Sending.antt =====
-- What `send` hands to the client library, on every branch.
use rsb_spread_cpp.Base.{
  ℕ, suc, ◌+◌, ◌≤◌, ◌<◌, ◌≡◌, ◌⊎◌, Bool, true, false, Option, none, some, List, [], ◌∷◌, map, arith,
  length, All, ℤ, pos, is_negative, Text, c_str, Result, ok, throw, fault, IsIllegalState,
  IsCommError, refl, zero, take, assertion_failed, out_of_bounds,
}
use rsb_spread_cpp.Spread.{Call, multicast, multigroup_multicast, History, Env}
use rsb_spread_cpp.Message.{Message}
use rsb_spread_cpp.Connection.{
  Link, spread_max_groups, send_service, copy_groups, send_to, send, log_call,
}

module _ (env : Env) where
  -- Every name leaves room for the final NUL byte.
  abbrev pub Fit : List Text → Type 0
  Fit = All (λ g. length g < env.max_group_name)

  abbrev Copies : List Text → ℕ → Link → Result (List Text) × Link → Type 0
  Copies gs i l (ok rows, k) =
      (rows ≡ map c_str gs) × (i + length gs ≤ spread_max_groups) × Fit gs × (k ≡ l)
  Copies gs i l (throw e, k) = ⊥
  Copies gs i l (fault x, k) =
      (k ≡ l)
      × (((x ≡ assertion_failed) × (env.ndebug ≡ false) × ¬ Fit gs)
          ⊎ ((x ≡ out_of_bounds)
              × ((spread_max_groups < i + length gs) ⊎ ((env.ndebug ≡ true) × ¬ Fit gs))))

  copy_groups-Copies :
      (gs : List Text) (i : ℕ) (l : Link)
      → i ≤ spread_max_groups
      → Copies gs i l (copy_groups env i gs l)
  unfolding copy_groups
  copy_groups-Copies [] i l h = ground arith
  copy_groups-Copies (g ∷ gs) i l h = ground (arith, copy_groups-Copies gs (suc i) l)

  -- The call that a message to these groups turns into.
  abbrev pub transmission : Link → Message → List Text → Option Call
  transmission l m [] = none
  transmission l m (g ∷ []) = some (multicast l.mailbox (send_service env m) (c_str g) m.payload)
  transmission l m (g ∷ h ∷ gs) =
      some (multigroup_multicast l.mailbox (send_service env m) (map c_str (g ∷ h ∷ gs)) m.payload)

  -- What the client library answers to it.
  abbrev pub answer : History → Call → ℤ
  answer h (multicast b s g d) = env.sp_multicast h b s g d
  answer h (multigroup_multicast b s gs d) = env.sp_multigroup_multicast h b s gs d
  answer h _ = pos 0

  -- The call was made, and nothing else happened; `bad` says whether the answer was negative.
  abbrev pub Called : Link → Option Call → Bool → Link → Type 0
  Called l none bad k = ⊥
  Called l (some c) bad k = (is_negative (answer l.history c) ≡ bad) × (k ≡ log_call c l)

  -- How `send` may end.
  abbrev pub Sends : Link → Message → List Text → Result (Unit {0}) × Link → Type 0
  Sends l m gs (ok _, k) =
      (l.connected ≡ true)
      × (length gs ≤ spread_max_groups)
      × ((env.ndebug ≡ false) ⊎ (2 ≤ length gs) → Fit gs)
      × Called l (transmission l m gs) false k
  Sends l m gs (throw e, k) =
      ((l.connected ≡ false) × IsIllegalState e × (k ≡ l))
      ⊎ ((l.connected ≡ true) × (env.ndebug ≡ true) × (gs ≡ []) × IsCommError e × (k ≡ l))
      ⊎ ((l.connected ≡ true)
          × (length gs ≤ spread_max_groups)
          × ((env.ndebug ≡ false) ⊎ (2 ≤ length gs) → Fit gs)
          × IsCommError e
          × Called l (transmission l m gs) true k)
  Sends l m gs (fault x, k) =
      (l.connected ≡ true)
      × (k ≡ l)
      × (((x ≡ assertion_failed) × (env.ndebug ≡ false) × ((gs ≡ []) ⊎ ¬ Fit gs))
          ⊎ ((x ≡ out_of_bounds)
              × (2 ≤ length gs)
              × ((spread_max_groups < length gs) ⊎ ((env.ndebug ≡ true) × ¬ Fit gs))))

  send_to-Sends :
      (l : Link) (m : Message) (gs : List Text)
      → l.connected ≡ true
      → Sends l m gs (send_to env m gs l)
  unfolding send_to
  send_to-Sends l m [] on = ground arith
  send_to-Sends l m (g ∷ []) on = ground arith
  send_to-Sends l m (g ∷ h ∷ gs) on = ground (arith, copy_groups-Copies (g ∷ h ∷ gs) 0 l)

-- How `send` ends, in every case. On an inactive connection it throws `IllegalStateException`. On
-- an active one it makes exactly one call, with the message's payload and its groups in their
-- order, and returns if the answer is not negative and throws `CommException` if it is; there are
-- then at most 100 groups, and all names fit into a row, but for that of a single group in a
-- build without asserts. A message without groups is a `CommException` in a build without asserts
-- and a failed assert in one with them. The other ends are faults: the failed assert for a name
-- too long for its row in a build with asserts, and, with two groups or more, the write outside
-- the rows for more than 100 groups or, in a build without asserts, for such a name. Nothing but
-- the one call changes the connection.
pub send-Sends : (env : Env) (l : Link) (m : Message) → Sends env l m m.groups (send env m l)
unfolding send
send-Sends env l m = ground (arith, send_to-Sends env l m m.groups)

module _ (env : Env) (g : Text) (gs : List Text) (i : ℕ) (l : Link)
    (fit : length g < env.max_group_name) where
  copy_groups_later :
      i < spread_max_groups
      → copy_groups env (suc i) gs l ≡ (fault out_of_bounds, l)
      → copy_groups env i (g ∷ gs) l ≡ (fault out_of_bounds, l)
  unfolding copy_groups
  copy_groups_later room later = ground (arith, room, later, fit)

  copy_groups_last : spread_max_groups ≤ i → copy_groups env i (g ∷ gs) l ≡ (fault out_of_bounds, l)
  unfolding copy_groups
  copy_groups_last none_left = ground (arith, none_left, fit)

-- The row behind the last one is written, unless a name before does not fit.
copy_groups_behind :
    (env : Env) (gs : List Text) (i n : ℕ) (l : Link)
    → i + n ≡ spread_max_groups
    → n < length gs
    → Fit env (take (suc n) gs)
    → copy_groups env i gs l ≡ (fault out_of_bounds, l)
copy_groups_behind env [] i n l all more fit = absurd (omega (arith, more))
copy_groups_behind env (g ∷ gs) i zero l all more fit =
    copy_groups_last env g gs i l fit.0 (omega (arith, all))
copy_groups_behind env (g ∷ gs) i (suc n) l all more fit =
    copy_groups_later env g gs i l fit.0 (omega (arith, all))
      (copy_groups_behind env gs (suc i) n l (omega (arith, all)) (omega (arith, more)) fit.1)

send_to_behind :
    (env : Env) (gs : List Text) (l : Link) (m : Message)
    → spread_max_groups < length gs
    → Fit env (take (suc spread_max_groups) gs)
    → send_to env m gs l ≡ (fault out_of_bounds, l)
unfolding send_to
send_to_behind env [] l m many fit = absurd (omega (arith, many))
send_to_behind env (g ∷ []) l m many fit = absurd (omega (arith, many))
send_to_behind env (g ∷ h ∷ gs) l m many fit =
    let behind = copy_groups_behind env (g ∷ h ∷ gs) 0 spread_max_groups l refl many fit in
    ground (arith, behind)

-- Whatever the build and whatever the daemon, sending a message with more than 100 groups over an
-- active connection, of which the first 101 have names that fit into a row, writes outside the array of
-- names and sends nothing: no check of their number stops it.
pub send_too_many_groups :
    (env : Env) (l : Link) (m : Message)
    → l.connected ≡ true
    → spread_max_groups < length m.groups
    → Fit env (take (suc spread_max_groups) m.groups)
    → send env m l ≡ (fault out_of_bounds, l)
unfolding send
send_too_many_groups env l m on many fit = ground (arith, send_to_behind env m.groups l m many fit)
