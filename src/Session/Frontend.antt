-- ===== src/Session/Frontend.antt =====
-- `pumpFrontend` of internal/proxy/session.go: one message of the client. `now` is the time at which it
-- is handled, and `random` what the random source gives should a job id be needed.
pub mod Admission
pub mod Async
unfoldable pub use Admission.*
unfoldable pub use Async.*
use dsql_emulator.Prelude.{
  ℕ, Bool, true, false, ◌&&◌, Option, none, some, ◌==◌, if◌then◌else◌, is_some, is_nil, List, [],
  ◌∷◌, ◌++◌, Text,
}
use dsql_emulator.Kind.{Kind, ddl, rollback, is_commit, ends_transaction}
use dsql_emulator.Verdict.{Result, rejected}
use dsql_emulator.Txn.{Violation, admit}
use dsql_emulator.Occ.{Intent}
use dsql_emulator.Wire.{Message, Parse, Bind, Close, Frontend, Decoded, decode_frontend}
use dsql_emulator.Rewrite.{strip_async, job_marker}
use dsql_emulator.Rewrite.JobId.{new_job_id}
use dsql_emulator.Session.State.{Env, Session, StatementInfo, query, parse, forwarded}
use dsql_emulator.Session.Output.{
  write_upstream, write_upstream_exchange, forward, note_batch_state,
}
use dsql_emulator.Session.Failure.{reject, reject_failed, begin_failure, begin_pending}
use dsql_emulator.Session.Conflict.{add_occ_tables, reset_occ, occ_commit_conflict, occ_failure}
use dsql_emulator.Session.Adjudicator.{count_txn_statement, arm_adjudicator, establish_savepoint}
use dsql_emulator.Session.Jobs.{
  rewrite_sql, restore_job, find_statement, put_statement, delete_statement,
}

unfoldable pub handle_sync : Session → Message → Session
unfolding forward begin_failure
handle_sync s msg =
    begin_pending (forward (record s { pending_failure = none; skip_sync = false }) msg)
      s.pending_failure

-- The end of `handleQuery`: the statement as it is, or rewritten.
unfoldable pub send_query : Env → Session → Message → Text → Session
unfolding rewrite_sql write_upstream_exchange forward
send_query e s msg sql =
    let (t, rewritten) = rewrite_sql e s sql in
    if is_nil rewritten
    then forward t msg
    else if e.codec.encodes_query rewritten
    then write_upstream_exchange t (query rewritten)
    else forward t msg

abbrev pub query_classified : Env → ℕ → Session → Message → Text → Option Result → Session
query_classified e now s msg sql none = forward s msg
query_classified e now s msg sql (some r) =
    if rejected r.verdict
    then reject s r.verdict.code r.verdict.message false
    else admitted s r.kinds now (λ t v. reject t v.code v.message false)
        λ t.
          run_admitted e t r.kinds r.tables (e.analyze sql) none false (λ u. send_query e u msg sql)

unfoldable pub query_plain : Env → ℕ → Session → Message → Text → Session
unfolding end_aborted forward reject_failed reject run_admitted send_query
query_plain e now s msg sql =
    if s.txn_aborted
    then (if ends_sql (e.classify false sql)
        then forward (end_aborted s now) msg
        else reject_failed s false)
    else query_classified e now s msg sql (e.classify false sql)

abbrev pub query_stripped :
    Env → ℕ → Option Text → Session → Message → Text → Option (Text × ℕ) → Session
query_stripped e now random s msg sql none = query_plain e now s msg sql
query_stripped e now random s msg sql (some (rewritten, ordinal)) =
    forward_async_job e now random s msg (Frontend.query sql) rewritten ordinal false

abbrev info_of : Result → StatementInfo
info_of r = record { kinds = r.kinds; tables = r.tables; intent = none; job_id = [] }

-- The end of `handleParse`: what a conflict would have to be answered with is found out beforehand.
unfoldable pub remember_parse : Env → Session → Message → Parse → Result → Session
unfolding establish_savepoint put_statement forward
remember_parse e s msg p r =
    let intent = e.analyze p.query in
    let t = if is_some intent && s.tracker.in_txn then (establish_savepoint s).0 else s in
    forward (put_statement t p.name (record (info_of r) { intent = intent })) msg

unfoldable pub send_parse : Env → Session → Message → Parse → Result → Session
unfolding rewrite_sql remember_parse put_statement write_upstream
send_parse e s msg p r =
    let (t, rewritten) = rewrite_sql e s p.query in
    let q : Parse = record p { query = rewritten } in
    if is_nil rewritten
    then remember_parse e t msg p r
    else if e.codec.encodes_parse q
    then write_upstream (put_statement t p.name (info_of r)) (parse q)
    else remember_parse e t msg q r

abbrev pub parse_aborted : Session → Message → Parse → Option Result → Session
parse_aborted s msg p none = reject_failed s true
parse_aborted s msg p (some r) =
    if ends_transaction r.kinds
    then forward (put_statement s p.name (info_of r)) msg
    else reject_failed s true

abbrev pub parse_classified : Env → Session → Message → Parse → Option Result → Session
parse_classified e s msg p none = forward (delete_statement s p.name) msg
parse_classified e s msg p (some r) =
    if rejected r.verdict
    then reject (delete_statement s p.name) r.verdict.code r.verdict.message true
    else send_parse e s msg p r

abbrev pub parse_stripped :
    Env → ℕ → Option Text → Session → Message → Parse → Option (Text × ℕ) → Session
parse_stripped e now random s msg p (some (rewritten, _)) =
    forward_async_job e now random s msg (Frontend.parse p) rewritten 0 true
parse_stripped e now random s msg p none =
    if s.txn_aborted
    then parse_aborted s msg p (e.classify false p.query)
    else parse_classified e s msg p (e.classify false p.query)

unfoldable pub finish_bind : StatementInfo → Message → Session → Session
unfolding restore_job forward
finish_bind info msg s = forward (if is_nil info.job_id then s else restore_job s info.job_id) msg

abbrev pub bind_known : Env → ℕ → Session → Message → Bind → Option StatementInfo → Session
bind_known e now s msg b none = forward s msg
bind_known e now s msg b (some info) =
    if s.txn_aborted
    then (if ends_transaction info.kinds
        then forward (end_aborted s now) msg
        else reject_failed s true)
    else admitted s info.kinds now (λ t v. reject t v.code v.message true)
        λ t.
          run_admitted e t info.kinds info.tables info.intent (some b) true (finish_bind info msg)

abbrev pub close_decoded : Session → Message → Close → Session
close_decoded s msg c = forward (if c.object_type == b'S' then delete_statement s c.name else s) msg

abbrev pub query_decoded : Env → ℕ → Option Text → Session → Message → Decoded → Session
query_decoded e now random s msg (Decoded.decoded (Frontend.query sql)) =
    query_stripped e now random s msg sql (strip_async e.scan sql)
query_decoded e now random s msg _ = forward s msg

abbrev pub parse_decoded : Env → ℕ → Option Text → Session → Message → Decoded → Session
parse_decoded e now random s msg (Decoded.decoded (Frontend.parse p)) =
    parse_stripped e now random s msg p (strip_async e.scan p.query)
parse_decoded e now random s msg _ = forward s msg

abbrev pub bind_decoded : Env → ℕ → Session → Message → Decoded → Session
bind_decoded e now s msg (Decoded.decoded (Frontend.bind b)) =
    bind_known e now s msg b (find_statement b.prepared_statement s.statements)
bind_decoded e now s msg _ = forward s msg

abbrev pub closes : Session → Message → Decoded → Session
closes s msg (Decoded.decoded (Frontend.close c)) = close_decoded s msg c
closes s msg _ = forward s msg

unfoldable pub handle_query : Env → ℕ → Option Text → Session → Message → Session
unfolding query_plain forward_async_job forward
handle_query e now random s msg =
    query_decoded e now random s msg (decode_frontend e.codec msg.tag msg.body)

unfoldable pub handle_parse : Env → ℕ → Option Text → Session → Message → Session
unfolding forward_async_job put_statement delete_statement forward reject_failed reject send_parse
handle_parse e now random s msg =
    parse_decoded e now random s msg (decode_frontend e.codec msg.tag msg.body)

unfoldable pub handle_bind : Env → ℕ → Session → Message → Session
unfolding forward end_aborted reject_failed reject run_admitted finish_bind
handle_bind e now s msg = bind_decoded e now s msg (decode_frontend e.codec msg.tag msg.body)

unfoldable pub handle_close : Env → Session → Message → Session
unfolding delete_statement forward
handle_close e s msg = closes s msg (decode_frontend e.codec msg.tag msg.body)

-- The switch over the message's type.
unfoldable pub dispatched : Env → ℕ → Option Text → Session → Message → Session
unfolding handle_query handle_parse handle_bind handle_close forward
dispatched e now random s msg =
    if msg.tag == b'Q'
    then handle_query e now random s msg
    else if msg.tag == b'P'
    then handle_parse e now random s msg
    else if msg.tag == b'B'
    then handle_bind e now s msg
    else if msg.tag == b'C'
    then handle_close e s msg
    else forward s msg

-- A Terminate ends the session, and a message between a refusal and the client's Sync is dropped.
unfoldable pub frontend : Env → ℕ → Option Text → Session → Message → Session
unfolding write_upstream handle_sync dispatched note_batch_state
frontend e now random s msg =
    if s.ended
    then s
    else if msg.tag == b'X'
    then record (write_upstream s (forwarded msg)) { ended = true }
    else if msg.tag == b'S'
    then note_batch_state (handle_sync s msg) msg.tag
    else if s.skip_sync
    then s
    else note_batch_state (dispatched e now random s msg) msg.tag
