-- ===== src/Session/Tests.antt =====
-- Runs of a session that can be followed in the source.
use dsql_emulator.Prelude.{
  ◌≡◌, refl, [], ◌∷◌, none, Text, lit, text_eq, itoa, show_int, atoi, trim_space, trim_semicolon,
  plain_spaces, to_lower, fields, join_spaced, split_dots, contains,
}
use dsql_emulator.Txn.{admit, check, has_rollback, too_old, note_all, note}
use dsql_emulator.Kind.{is_commit, ends_transaction}
use dsql_emulator.Occ.{command_tag, is_conflict, code_lock_timeout, code_serialization}
use dsql_emulator.Wire.{decode_frontend}
use dsql_emulator.Rewrite.{strip_async, server_version_num}
use dsql_emulator.Session.State.{
  Session, query, forwarded, relayed, command_complete, ready_for_query, error_response,
}
use dsql_emulator.Session.Output.{own_error}
use dsql_emulator.Session.Failure.{
  abort_transaction_query, rollback_query, state_in_failed_transaction,
  message_in_failed_transaction, reject_failed,
}
use dsql_emulator.Session.Conflict.{
  matches, inject, conflict_code, conflict_message, as_conflict, touches, period, bump,
}
use dsql_emulator.Session.Shadow.{shadow_params, first_column_int}
use dsql_emulator.Session.Adjudicator.{
  savepoint_query, rollback_to_query, restart_query, has_control,
}
use dsql_emulator.Session.Jobs.{rewrite_sql, statement_key, find_statement}
use dsql_emulator.Session.Backend.{backend, backend_all}
use dsql_emulator.Session.Frontend.{frontend, handle_query, run_admitted}
use dsql_emulator.Session.Sample.{
  env, limits, new_session, ask, message, ready_with, classify_sample, analyze_sample,
}

-- A simple query at time 7. Its line opens what a run goes through.
asked : Session → Text → Session
unfolding frontend backend_all backend handle_query lit text_eq classify_sample analyze_sample
    new_session admit check has_rollback too_old note_all note is_commit ends_transaction
    command_tag is_conflict code_lock_timeout code_serialization own_error run_admitted rewrite_sql
    strip_async decode_frontend matches inject abort_transaction_query rollback_query conflict_code
    conflict_message savepoint_query rollback_to_query restart_query state_in_failed_transaction
    message_in_failed_transaction statement_key server_version_num trim_space trim_semicolon
    plain_spaces to_lower fields join_spaced split_dots itoa show_int atoi shadow_params has_control
    first_column_int as_conflict find_statement touches contains period bump reject_failed
asked s sql = frontend env 7 none s (ask sql)

abbrev begun : Session
begun = backend env (asked (new_session limits) (lit "BEGIN")) (ready_with b'T')

-- An UPDATE in an open transaction is preceded by a savepoint.
abbrev sent : Session
sent = asked begun (lit "UPDATE t")

sent_upstream :
    sent.to_upstream
    ≡ forwarded (ask (lit "BEGIN"))
      ∷ query (lit "SAVEPOINT dsql_occ")
      ∷ forwarded (ask (lit "UPDATE t"))
      ∷ []
unfolding asked
sent_upstream = refl

-- The UPDATE is refused a lock; the client is told that it changed two rows.
abbrev updated : Session
updated = backend_all env sent (
    ready_with b'T'
    ∷ message b'E' (lit "55P03")
    ∷ ready_with b'E'
    ∷ ready_with b'T'
    ∷ message b'D' (lit "2")
    ∷ ready_with b'T'
    ∷ [])

updated_client :
    updated.to_client
    ≡ relayed (ready_with b'T') ∷ command_complete (lit "UPDATE 2") ∷ ready_for_query b'T' ∷ []
unfolding asked
updated_client = refl

-- Its COMMIT is rolled back, and fails with a conflict.
abbrev committed : Session
committed = backend env (asked updated (lit "COMMIT")) (ready_with b'I')

committed_client :
    committed.to_client
    ≡ relayed (ready_with b'T')
      ∷ command_complete (lit "UPDATE 2")
      ∷ ready_for_query b'T'
      ∷ error_response
          (own_error (lit "40001") (lit "change conflicts with another transaction (OC000)"))
      ∷ ready_for_query b'I'
      ∷ []
unfolding asked
committed_client = refl
