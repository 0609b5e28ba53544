-- ===== src/Session/Adjudicator.antt =====
-- internal/proxy/adjudicator.go: a refused lock is deferred to COMMIT.
pub mod Savepoint
unfoldable pub use Savepoint.*
use dsql_emulator.Prelude.{
  ℕ, ◌+◌, Bool, true, false, not, ◌||◌, ◌&&◌, List, [], ◌∷◌, ◌++◌, Option, none, some, ltb, leb,
  ◌==◌, if◌then◌else◌, Text, lit, is_nil, is_some, ℤ, pos,
}
use dsql_emulator.Kind.{Kind, begin, commit, rollback}
use dsql_emulator.Wire.{Message, Bind, ErrorResponse}
use dsql_emulator.Occ.{Intent, is_conflict, command_tag}
use dsql_emulator.Session.State.{
  Env, Session, Hidden, InFlight, UpstreamMessage, savepoint, restoring, counting, rows_of, relayed,
  ready_for_query, command_complete, query,
}
use dsql_emulator.Session.Output.{write_client, begin_exchange, write_upstream_exchange, send_error}
use dsql_emulator.Session.Failure.{begin_failure, abort_transaction_query}
use dsql_emulator.Session.Conflict.{conflict_code, conflict_message}
use dsql_emulator.Session.Shadow.{shadow_params, extended_query, first_column_int}

abbrev pub conflicts : Option ErrorResponse → Bool
conflicts none = false
conflicts (some er) = is_conflict er.code

-- Whether the refused statement can be answered for.
unfoldable pub is_repairable : Session → Bool
is_repairable s =
    (s.occ_savepoint || leb s.occ_txn_statements 1)
    && s.tracker.in_txn
    && is_some s.occ_in_flight
    && leb s.pending_exchanges 1

-- The result tells whether the error was taken over.
unfoldable pub occ_intercept : Env → Session → Message → Session × Bool
unfolding is_repairable
occ_intercept e s msg =
    if conflicts (e.codec.decode_error msg.body) && is_repairable s
    then (record s { occ_repair = s.occ_in_flight; occ_in_flight = none }, true)
    else (s, false)

abbrev pub restore : Bool → Text
restore has_savepoint = if has_savepoint then rollback_to_query else restart_query

abbrev pub repair : Session → Option InFlight → Session × Bool
repair s none = (s, false)
repair s (some f) = (
  write_upstream_exchange
      (record s {
        occ_repair = none;
        occ_doomed = true;
        tx_status = b'T';
        hidden = some (restoring f false);
      })
      (query (restore s.occ_savepoint)),
  true,
)

-- The result tells whether a repair was started.
unfoldable pub start_repair : Session → Session × Bool
unfolding write_upstream_exchange
start_repair s = repair s s.occ_repair

unfoldable pub complete_repair : Session → InFlight → ℤ → Session
unfolding write_client
complete_repair s f rows =
    write_client (write_client s (command_complete (command_tag f.intent rows)))
      (ready_for_query b'T')

unfoldable pub fail_repair : Env → Session → Session
unfolding send_error write_client begin_failure
fail_repair e s =
    begin_failure
      (send_error (record s { occ_doomed = false }) (conflict_code e.rules.occ)
        (conflict_message e.rules.occ))
      (record { statement = abort_transaction_query; status = b'E'; swallow = 1 })

-- Several messages of one request, written at once.
unfoldable pub write_exchange : Session → List UpstreamMessage → Session
unfolding begin_exchange
write_exchange s ms = let t = begin_exchange s in record t { to_upstream = t.to_upstream ++ ms }

abbrev pub count_rows : Env → Session → InFlight → Option (List (Option Text) × List ℕ) → Session
count_rows e s f none = fail_repair e s
count_rows e s f (some ([], formats)) =
    write_exchange (record s { hidden = some (counting f false (pos 0)) })
      (query f.intent.shadow ∷ [])
count_rows e s f (some (v ∷ vs, formats)) =
    write_exchange (record s { hidden = some (counting f false (pos 0)) })
      (extended_query f.intent.shadow (v ∷ vs) formats [])

unfoldable pub run_count_shadow : Env → Session → InFlight → Session
unfolding write_exchange fail_repair
run_count_shadow e s f = count_rows e s f (shadow_params f)

abbrev pub rerun : Env → Session → InFlight → Option (List (Option Text) × List ℕ) → Session
rerun e s f none = fail_repair e s
rerun e s f (some (values, formats)) =
    write_exchange (record s { hidden = some (rows_of f false) })
      (if f.extended
        then extended_query f.intent.shadow values formats f.formats
        else query f.intent.shadow ∷ [])

unfoldable pub run_rowset_shadow : Env → Session → InFlight → Session
unfolding write_exchange fail_repair
run_rowset_shadow e s f = rerun e s f (shadow_params f)

unfoldable pub run_shadow : Env → Session → InFlight → Session
unfolding complete_repair run_count_shadow run_rowset_shadow
run_shadow e s f =
    if is_nil f.intent.shadow
    then complete_repair s f f.intent.rows
    else if f.intent.rowset
    then run_rowset_shadow e s f
    else run_count_shadow e s f

-- What `finish` does once the exchange is over.
unfoldable pub finish_hidden : Env → Session → Hidden → Session
unfolding run_shadow fail_repair complete_repair write_client
finish_hidden e s (savepoint failed) = if failed then record s { occ_savepoint = false } else s
finish_hidden e s (restoring f failed) = if failed then fail_repair e s else run_shadow e s f
finish_hidden e s (counting f failed rows) =
    if failed then fail_repair e s else complete_repair s f rows
finish_hidden e s (rows_of f failed) =
    if failed then fail_repair e s else write_client s (ready_for_query b'T')

abbrev pub or_rows : Option ℤ → ℤ → ℤ
or_rows none rows = rows
or_rows (some n) rows = n

-- What `consume` does to the variables of its closure.
unfoldable pub advance_hidden : Env → Hidden → Message → Hidden
advance_hidden e (savepoint failed) msg = savepoint (failed || msg.tag == b'E')
advance_hidden e (restoring f failed) msg = restoring f (failed || msg.tag == b'E')
advance_hidden e (counting f failed rows) msg =
    counting f (failed || msg.tag == b'E')
      (if msg.tag == b'D' then or_rows (first_column_int e.codec msg) rows else rows)
advance_hidden e (rows_of f failed) msg = rows_of f (failed || msg.tag == b'E')

-- What `consume` passes on to the client: rows that the client waits for.
unfoldable pub pass_hidden : Session → Hidden → Message → Session
unfolding write_client
pass_hidden s (rows_of f failed) msg =
    if msg.tag == b'D' || msg.tag == b'C' || (msg.tag == b'T' && not f.extended)
    then write_client s (relayed msg)
    else s
pass_hidden s _ msg = s

-- A message of the upstream that belongs to a hidden exchange; its ReadyForQuery ends the exchange.
unfoldable pub consume_hidden : Env → Session → Hidden → Message → Session
unfolding finish_hidden advance_hidden pass_hidden
consume_hidden e s h msg =
    if msg.tag == b'Z'
    then finish_hidden e (record s { hidden = none }) (advance_hidden e h msg)
    else record (pass_hidden s h msg) { hidden = some (advance_hidden e h msg) }
