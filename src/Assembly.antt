-- ===== src/Assembly.antt =====
-- src/rsb/transport/spread/Assembly.{h,cpp}, class Assembly: the fragments of one notification.
-- Time is the local time in microseconds, and an argument of the calls that read the clock.
pub mod Slots
pub mod Payload
pub mod Joining
use rsb_spread_cpp.Base.{
  ◌>>=◌, ◌>>◌, ℕ, ◌+◌, ◌-◌, ◌/◌, ◌%◌, ◌^◌, Bool, Option, none, some, List, [], ◌∷◌, ◌++◌, leb, ◌==◌,
  if◌then◌else◌, length, get_elem?, set, replicate, pos, Text, bytes, protocol_error, out_of_bounds,
  null_dereferenced, Result, ok, throw, fault, Action, raise, crash, get, check,
}
use rsb_spread_cpp.Spread.{Env}
use rsb_spread_cpp.Protocol.{Notification, Fragment}

-- A null pointer is `none`.
pub record Assembly : Type 0 where
  pub received_parts : ℕ
  pub store : List (Option Fragment)
  pub birth_time : ℕ

abbrev pub is_complete : Assembly → Bool
is_complete a = a.received_parts == length a.store

abbrev pub twice_text : Env → Fragment → Text
twice_text env f =
    bytes "Received fragment ("
    ++ env.decimal (pos f.data_part)
    ++ bytes "/"
    ++ env.decimal (pos f.num_data_parts)
    ++ bytes ") of notification for event with sender id "
    ++ f.sender_id
    ++ bytes " and sequence number "
    ++ env.decimal (pos f.sequence_number)
    ++ bytes " twice!."

-- What `add` does at the element that the fragment's number selects.
unfoldable pub add_at : Env → Fragment → Option (Option Fragment) → Action Assembly Bool
add_at env f none a = crash out_of_bounds a
add_at env f (some (some old)) a = raise (protocol_error (twice_text env f)) a
add_at env f (some none) a =
    let b = record a {
      store = set a.store f.data_part (some f);
      received_parts = (a.received_parts + 1) % 2 ^ 32;
    } in
    (ok (is_complete b), b)

unfoldable pub add : Env → Fragment → Action Assembly Bool
unfolding add_at
add env f = do
  a ← get
  check env.ndebug (f.num_data_parts == length a.store)
  add_at env f (get_elem? a.store f.data_part)

abbrev pub empty_assembly : ℕ → ℕ → Assembly
empty_assembly parts now = record {
  received_parts = 0;
  store = replicate parts none;
  birth_time = now;
}

abbrev pub created : Result Bool × Assembly → Result Assembly
created (ok _, a) = ok a
created (throw e, a) = throw e
created (fault x, a) = fault x

-- The constructor: it adds the fragment, and drops what `add` returns.
unfoldable pub new_assembly : Env → ℕ → Fragment → Result Assembly
unfolding add
new_assembly env now f = created (add env f (empty_assembly f.num_data_parts now))

-- The loop that appends the payloads of the other fragments.
unfoldable pub append_payloads : Text → List (Option Fragment) → Result Text
append_payloads text [] = ok text
append_payloads text (none ∷ store) = fault null_dereferenced
append_payloads text (some f ∷ store) = append_payloads (text ++ f.payload) store

abbrev with_payload : Fragment → Result Text → Result Notification
with_payload f (ok text) = ok (record f.notification { payload = text })
with_payload f (throw e) = throw e
with_payload f (fault x) = fault x

unfoldable pub join_from : List (Option Fragment) → Result Notification
unfolding append_payloads
join_from [] = fault out_of_bounds
join_from (none ∷ store) = fault null_dereferenced
join_from (some f ∷ store) = with_payload f (append_payloads f.payload store)

-- The notification is that of the first fragment, which keeps the appended payload; an assembly is
-- dropped once it has been joined, so what becomes of its first fragment is left out.
unfoldable pub get_complete_notification : Env → Action Assembly Notification
unfolding join_from
get_complete_notification env = do
  a ← get
  check env.ndebug (is_complete a)
  λ b. (join_from a.store, b)

-- `total_seconds` of the time since the birth, cut to whole seconds towards 0, as an `unsigned
-- int`: below 0 if the clock was set back.
unfoldable pub age : ℕ → Assembly → ℕ
age now a =
    if leb a.birth_time now
    then ((now - a.birth_time) / 1000000) % 2 ^ 32
    else (2 ^ 32 - ((a.birth_time - now) / 1000000) % 2 ^ 32) % 2 ^ 32
