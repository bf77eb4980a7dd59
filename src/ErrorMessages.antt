-- ===== src/ErrorMessages.antt =====
-- src/rsb/transport/spread/ErrorMessages.cpp: descriptions of the client library's error codes.
use rsb_spread_cpp.Base.{
  ℤ, Text, List, [], ◌∷◌, ◌++◌, Option, none, some, bytes, lookup, ℤ_discrete,
}
use rsb_spread_cpp.Spread.{Env, ErrorCodes}

-- The labels of the `switch`, each with the text that it returns.
unfoldable pub descriptions : ErrorCodes → List (ℤ × Text)
descriptions c =
    (c.illegal_spread, bytes "Connection to Spread daemon failed, check port and hostname")
    ∷ (
      c.could_not_connect,
      bytes
          "Connection to Spread daemon failed due to socket errors , check port and hostname. Is the daemon running?",
    )
    ∷ (
      c.reject_quota,
      bytes
          "The Spread daemon rejected the connection. Too many clients are connected to the Spread daemon.",
    )
    ∷ (
      c.reject_no_name,
      bytes "The Spread daemon rejected the connection. No name was supplied for the new client.",
    )
    ∷ (
      c.reject_illegal_name,
      bytes
          "The Spread daemon rejected the connection. The name provided for the client is illegal.",
    )
    ∷ (
      c.reject_not_unique,
      bytes
          "The Spread daemon rejected the connection. The name provided for the new client is not unique within the Spread daemon.",
    )
    ∷ (
      c.reject_version,
      bytes
          "The Spread daemon rejected the connection. Spread daemon version and Spread library versions do not match.",
    )
    ∷ (
      c.reject_auth,
      bytes
          "The Spread daemon rejected the connection. The client failed to authenticate to the Spread daemon.",
    )
    ∷ (c.connection_closed, bytes "The Spread daemon has closed the client's connection.")
    ∷ (c.net_error_on_session, bytes "The client lost its connection to the Spread daemon. ")
    ∷ (
      c.illegal_session,
      bytes
          "An illegal mailbox was supplied to the Spread library (client-side programming error).",
    )
    ∷ (
      c.illegal_service,
      bytes
          "An illegal service was requested from the Spread library (client-side programming error).",
    )
    ∷ (
      c.illegal_message,
      bytes "An illegal message was passed to the Spread library (client-side programming error).",
    )
    ∷ (
      c.illegal_group,
      bytes
          "An illegal group name was passed to the Spread library (client-side programming error).",
    )
    ∷ (c.groups_too_short, bytes "Group buffer too short when receiving a message.")
    ∷ (c.buffer_too_short, bytes "Message body buffer too short when receiving a message.")
    ∷ (c.message_too_long, bytes "Message body too long when sending a message")
    ∷ internal_error c.sp_bug
  where
    internal_error : Option ℤ → List (ℤ × Text)
    internal_error none = []
    internal_error (some code) = (code, bytes "Internal error in the Spread library.") ∷ []

described : Option Text → Text → Text
described none other = other
described (some text) other = text

unfoldable pub spread_error_string : Env → ℤ → Text
unfolding described
spread_error_string env code =
    described (lookup ℤ_discrete code (descriptions env.codes))
      (bytes "Unknown Spread error, code: " ++ env.decimal code)
