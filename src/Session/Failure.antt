-- ===== src/Session/Failure.antt =====
-- internal/proxy/session.go: refusals, and the transaction failures that the session injects.
use dsql_emulator.Prelude.{◌+◌, Bool, true, Option, none, some, leb, ◌==◌, if◌then◌else◌, Text, lit}
use dsql_emulator.Wire.{Message}
use dsql_emulator.Session.State.{Session, TxnFailure, ready_for_query, query}
use dsql_emulator.Session.Output.{write_client, write_upstream_exchange, send_error}

unfoldable pub abort_transaction_query : Text
abort_transaction_query = lit "SELECT 1/0"

unfoldable pub rollback_query : Text
rollback_query = lit "ROLLBACK"

unfoldable pub state_in_failed_transaction : Text
state_in_failed_transaction = lit "25P02"

unfoldable pub message_in_failed_transaction : Text
message_in_failed_transaction =
    lit "current transaction is aborted, commands ignored until end of transaction block"

unfoldable pub begin_failure : Session → TxnFailure → Session
unfolding write_upstream_exchange
begin_failure s f =
    write_upstream_exchange
      (record s { failure = some f; failure_rfqs = 0; txn_aborted = f.status == b'E' })
      (query f.statement)

unfoldable pub defer_failure : Session → TxnFailure → Session
defer_failure s f = record s { pending_failure = some f; skip_sync = true }

unfoldable pub reject : Session → Text → Text → Bool → Session
unfolding send_error write_client begin_failure defer_failure
reject s₀ code message extended =
    let s = send_error s₀ code message in
    if s.tracker.in_txn
    then (if extended
        then defer_failure s
            (record { statement = abort_transaction_query; status = b'E'; swallow = 2 })
        else begin_failure s
            (record { statement = abort_transaction_query; status = b'E'; swallow = 1 }))
    else if extended
    then record s { skip_sync = true }
    else write_client s (ready_for_query s.tx_status)

unfoldable pub reject_failed : Session → Bool → Session
unfolding send_error write_client
reject_failed s₀ extended =
    let s = send_error s₀ state_in_failed_transaction message_in_failed_transaction in
    if extended then record s { skip_sync = true } else write_client s (ready_for_query b'E')

abbrev swallowed : Session → Option TxnFailure → Session
swallowed s none = s
swallowed s (some f) =
    if leb f.swallow s.failure_rfqs
    then write_client (record s { failure = none; failure_rfqs = 0 }) (ready_for_query f.status)
    else s

-- Every message is swallowed; the ReadyForQuery that the failure waits for ends it.
unfoldable pub consume_failure_message : Session → Message → Session
unfolding write_client
consume_failure_message s msg =
    if msg.tag == b'Z'
    then swallowed (record s { failure_rfqs = s.failure_rfqs + 1 }) s.failure
    else s

-- `handleSync`: the client's Sync closes the upstream batch, and then a deferred failure begins.
abbrev pub begin_pending : Session → Option TxnFailure → Session
begin_pending s none = s
begin_pending s (some f) = begin_failure s f
