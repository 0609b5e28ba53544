-- ===== src/Session/Commit.antt =====
-- The COMMIT of a transaction that was refused a lock.
use dsql_emulator.Prelude.{
  ℕ, ◌≡◌, ap, true, false, List, [], ◌∷◌, ◌++◌, Option, none, some, arith, Text, ◌∙◌, append_assoc,
}
use dsql_emulator.Kind.{Kind, is_commit, ends_transaction}
use dsql_emulator.Verdict.{Result, rejected}
use dsql_emulator.Txn.{admit}
use dsql_emulator.Wire.{Message, Frontend, Decoded, decode_frontend}
use dsql_emulator.Rewrite.{strip_async}
use dsql_emulator.Session.State.{Env, Session, TxnFailure, error_response, ready_for_query, query}
use dsql_emulator.Session.Output.{own_error}
use dsql_emulator.Session.Failure.{rollback_query}
use dsql_emulator.Session.Conflict.{conflict_code, conflict_message}
use dsql_emulator.Session.Backend.{backend_all}
use dsql_emulator.Session.Frontend.{handle_query, query_plain, run_admitted}
use dsql_emulator.Session.Swallow.{readies, failure_completes}

commits-end : (ks : List Kind) → is_commit ks ≡ true → ends_transaction ks ≡ true
unfolding is_commit ends_transaction
commits-end [] h = h
commits-end (k ∷ ks) h = ground (arith, commits-end ks)

-- A batch with a COMMIT that the ruleset and the transaction rules admit, sent as a simple query in a
-- doomed transaction while the upstream owes no answer.
pub record IsDoomedCommit (e : Env) (now : ℕ) (s : Session) (m : Message) (sql : Text) (r : Result)
    : Type 0 where
  pub reads : decode_frontend e.codec m.tag m.body ≡ Decoded.decoded (Frontend.query sql)
  pub plain : strip_async e.scan sql ≡ none
  pub healthy : s.txn_aborted ≡ false
  pub classified : e.classify false sql ≡ some r
  pub accepted : rejected r.verdict ≡ false
  pub admits : (admit s.tracker r.kinds now).1 ≡ none
  pub commits : is_commit r.kinds ≡ true
  pub doomed : s.occ_doomed ≡ true
  pub settled : s.pending_exchanges ≡ 0
  pub alone : s.hidden ≡ none

doomed_sent :
    (e : Env) (now : ℕ) (random : Option Text) (s : Session) (m : Message) (sql : Text) (r : Result)
    → IsDoomedCommit e now s m sql r
    → let t = handle_query e now random s m in
      (t.to_client
        ≡ s.to_client
          ++ error_response (own_error (conflict_code e.rules.occ) (conflict_message e.rules.occ))
            ∷ [])
      × (t.to_upstream ≡ s.to_upstream ++ query rollback_query ∷ [])
      × (t.failure ≡ some (record { statement = rollback_query; status = b'I'; swallow = 1 }))
      × (t.failure_rfqs ≡ 0)
      × (t.txn_aborted ≡ false)
      × (t.hidden ≡ none)
      × (t.occ_doomed ≡ false)
unfolding handle_query query_plain run_admitted
doomed_sent e now random s m sql r v = ground (arith, commits-end r.kinds)

-- A batch with a COMMIT that the rules admit and that has no ASYNC form, sent as a simple query in a doomed
-- transaction while the upstream owes no answer, never reaches the upstream, whose transaction is rolled
-- back in its place; once the upstream has answered the rollback, whatever else it says, the client has been
-- sent the conflict and then one ReadyForQuery outside a transaction, and nothing is doomed any more.
pub doomed_commit :
    (e : Env) (now : ℕ) (random : Option Text) (s : Session) (m : Message) (sql : Text) (r : Result)
    (ms : List Message) (z : Message)
    → IsDoomedCommit e now s m sql r
    → readies ms ≡ 0
    → z.tag ≡ b'Z'
    → let t = handle_query e now random s m in
      let u = backend_all e t (ms ++ z ∷ []) in
      (t.to_upstream ≡ s.to_upstream ++ query rollback_query ∷ [])
      × (t.occ_doomed ≡ false)
      × (u.to_client
          ≡ s.to_client
            ++ (error_response
                  (own_error (conflict_code e.rules.occ) (conflict_message e.rules.occ))
                ∷ ready_for_query b'I'
                ∷ []))
      × (u.failure ≡ none)
      × (u.txn_aborted ≡ false)
doomed_commit e now random s m sql r ms z v none_ready ready =
    let t : Session = handle_query e now random s m in
    let sent = doomed_sent e now random s m sql r v in
    let f : TxnFailure = record { statement = rollback_query; status = b'I'; swallow = 1 } in
    let done =
      failure_completes e t f ms z (record { failing = sent.2; alone = sent.5 }) ready
        (omega (arith, sent.3, none_ready)) in
    (
      sent.1,
      sent.6,
      done.0 ∙ (ap (λ c. c ++ ready_for_query b'I' ∷ []) sent.0 ∙ append_assoc s.to_client _ _),
      done.1,
      done.2 ∙ sent.4,
    )
