-- ===== src/Session/Output.antt =====
-- internal/proxy/session.go: what a session writes, and its count of unanswered requests.
use dsql_emulator.Prelude.{
  ℕ, ◌+◌, ◌-◌, Bool, true, false, ◌||◌, [], ◌∷◌, ◌++◌, ◌==◌, if◌then◌else◌, Text, lit,
}
use dsql_emulator.Wire.{Message, ErrorResponse}
use dsql_emulator.Session.State.{Session, ClientMessage, UpstreamMessage, error_response, forwarded}

unfoldable pub write_client : Session → ClientMessage → Session
write_client s m = record s { to_client = s.to_client ++ m ∷ [] }

unfoldable pub write_upstream : Session → UpstreamMessage → Session
write_upstream s m = record s { to_upstream = s.to_upstream ++ m ∷ [] }

unfoldable pub begin_exchange : Session → Session
begin_exchange s = record s { pending_exchanges = s.pending_exchanges + 1 }

unfoldable pub end_exchange : Session → Session
end_exchange s = record s { pending_exchanges = s.pending_exchanges - 1 }

unfoldable pub write_upstream_exchange : Session → UpstreamMessage → Session
unfolding begin_exchange write_upstream
write_upstream_exchange s m = write_upstream (begin_exchange s) m

-- A simple Query and a Sync each draw one ReadyForQuery.
unfoldable pub forward : Session → Message → Session
unfolding begin_exchange write_upstream
forward s msg =
    if msg.tag == b'Q' || msg.tag == b'S'
    then write_upstream (begin_exchange s) (forwarded msg)
    else write_upstream s (forwarded msg)

unfoldable pub own_error : Text → Text → ErrorResponse
own_error code message = record {
  severity = lit "ERROR";
  code = code;
  message = message;
  detail = [];
  hint = [];
  rest = [];
}

unfoldable pub send_error : Session → Text → Text → Session
unfolding write_client
send_error s code message = write_client s (error_response (own_error code message))

opens_batch : ℕ → Bool
opens_batch t = t == b'P' || t == b'B' || t == b'D' || t == b'E' || t == b'C' || t == b'H'

unfoldable pub note_batch_state : Session → ℕ → Session
unfolding opens_batch
note_batch_state s t =
    if opens_batch t
    then record s { extended_batch_open = true }
    else if t == b'S' || t == b'Q'
    then record s { extended_batch_open = false }
    else s
