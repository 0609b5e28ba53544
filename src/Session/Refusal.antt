-- ===== src/Session/Refusal.antt =====
-- What a client sees of a statement that is refused in a transaction.
use dsql_emulator.Prelude.{
  ℕ, ◌≡◌, ap, true, false, List, [], ◌∷◌, ◌++◌, Option, none, some, arith, Text, ◌∙◌, append_assoc,
}
use dsql_emulator.Verdict.{Result, rejected}
use dsql_emulator.Wire.{Message, Frontend, Decoded, decode_frontend}
use dsql_emulator.Rewrite.{strip_async}
use dsql_emulator.Session.State.{Env, Session, TxnFailure, error_response, ready_for_query, query}
use dsql_emulator.Session.Output.{own_error}
use dsql_emulator.Session.Failure.{reject, abort_transaction_query}
use dsql_emulator.Session.Backend.{backend_all}
use dsql_emulator.Session.Frontend.{handle_query, query_plain}
use dsql_emulator.Session.Swallow.{readies, failure_completes}

-- A statement refused by the ruleset inside a transaction, sent as a simple query while nothing is
-- unanswered.
pub record IsRefused (e : Env) (s : Session) (m : Message) (sql : Text) (r : Result) : Type 0 where
  pub reads : decode_frontend e.codec m.tag m.body ≡ Decoded.decoded (Frontend.query sql)
  pub plain : strip_async e.scan sql ≡ none
  pub classified : e.classify false sql ≡ some r
  pub refused : rejected r.verdict ≡ true
  pub in_txn : s.tracker.in_txn ≡ true
  pub healthy : s.txn_aborted ≡ false
  pub settled : s.pending_exchanges ≡ 0
  pub alone : s.hidden ≡ none

refuse_sent :
    (e : Env) (now : ℕ) (random : Option Text) (s : Session) (m : Message) (sql : Text) (r : Result)
    → IsRefused e s m sql r
    → let t = handle_query e now random s m in
      (t.to_client
        ≡ s.to_client ++ error_response (own_error r.verdict.code r.verdict.message) ∷ [])
      × (t.to_upstream ≡ s.to_upstream ++ query abort_transaction_query ∷ [])
      × (t.failure
          ≡ some (record { statement = abort_transaction_query; status = b'E'; swallow = 1 }))
      × (t.failure_rfqs ≡ 0)
      × (t.txn_aborted ≡ true)
      × (t.hidden ≡ none)
      × (t.tracker ≡ s.tracker)
unfolding handle_query query_plain reject
refuse_sent e now random s m sql r v = ground arith

-- A statement without an ASYNC form that the ruleset refuses inside an open transaction, sent as a simple
-- query while the upstream owes no answer: the upstream is sent the query that aborts the transaction and
-- not the statement, the tracker is left alone, and once the upstream has answered, whatever else it says,
-- the client has been sent the rule's error and then one ReadyForQuery that reports a failed transaction,
-- and the session takes the transaction for aborted.
pub refused_in_txn :
    (e : Env) (now : ℕ) (random : Option Text) (s : Session) (m : Message) (sql : Text) (r : Result)
    (ms : List Message) (z : Message)
    → IsRefused e s m sql r
    → readies ms ≡ 0
    → z.tag ≡ b'Z'
    → let t = handle_query e now random s m in
      let u = backend_all e t (ms ++ z ∷ []) in
      (t.to_upstream ≡ s.to_upstream ++ query abort_transaction_query ∷ [])
      × (t.tracker ≡ s.tracker)
      × (u.to_client
          ≡ s.to_client
            ++ (error_response (own_error r.verdict.code r.verdict.message)
                ∷ ready_for_query b'E'
                ∷ []))
      × (u.failure ≡ none)
      × (u.txn_aborted ≡ true)
refused_in_txn e now random s m sql r ms z v none_ready ready =
    let t : Session = handle_query e now random s m in
    let sent = refuse_sent e now random s m sql r v in
    let f : TxnFailure = record {
      statement = abort_transaction_query;
      status = b'E';
      swallow = 1;
    } in
    let done =
      failure_completes e t f ms z (record { failing = sent.2; alone = sent.5 }) ready
        (omega (arith, sent.3, none_ready)) in
    (
      sent.1,
      sent.6,
      done.0 ∙ (ap (λ c. c ++ ready_for_query b'E' ∷ []) sent.0 ∙ append_assoc s.to_client _ _),
      done.1,
      done.2 ∙ sent.4,
    )
