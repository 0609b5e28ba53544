-- ===== src/Session/Classified.antt =====
-- A session whose classifier is that of internal/classify: what DSQL does not accept is never sent on.
mod Witnesses
use dsql_emulator.Prelude.{
  ℕ, ◌≡◌, refl, ap, sym, ◌∙◌, Bool, true, false, List, [], ◌∷◌, ◌++◌, Option, none, some, arith,
  if◌then◌else◌, Text, Option-cases, inl, inr, append-nil, ◌≢◌,
}
use dsql_emulator.Rules.{Ruleset}
use dsql_emulator.Rules.Validate.{validate}
use dsql_emulator.Verdict.{Verdict, Result, rejected}
use dsql_emulator.Wire.{Message, Frontend, Decoded, decode_frontend}
use dsql_emulator.Rewrite.{strip_async}
use dsql_emulator.Classify.{Parser, classify}
use dsql_emulator.Classify.Syntax.{Node}
use dsql_emulator.Classify.Columns.{present}
use dsql_emulator.Classify.Violations.{any_violates, classify-rejected}
use dsql_emulator.Classify.Reasons.{IsRefusedFor, classify-IsRefusedFor}
use dsql_emulator.Session.State.{
  Env, Session, ClientMessage, UpstreamMessage, error_response, ready_for_query, query,
}
use dsql_emulator.Session.Output.{own_error}
use dsql_emulator.Session.Failure.{reject, abort_transaction_query}
use dsql_emulator.Session.Frontend.{handle_query, query_plain}

-- The environment with the classifier that `New` makes of its ruleset.
abbrev pub with_parser : Env → Parser → Env
with_parser e parse = record e { classify = classify parse e.rules }

-- A text with a statement that violates the ruleset, which has passed validation, sent as a simple query
-- without an ASYNC form while the transaction is not aborted.
pub record IsUnsupported (e : Env) (parse : Parser) (s : Session) (m : Message) (sql : Text)
    (nodes : List (Option Node)) : Type 0 where
  pub reads : decode_frontend e.codec m.tag m.body ≡ Decoded.decoded (Frontend.query sql)
  pub plain : strip_async e.scan sql ≡ none
  pub valid : validate e.rules ≡ none
  pub parsed : parse sql ≡ some nodes
  pub violating : any_violates false e.rules (present nodes) ≡ true
  pub healthy : s.txn_aborted ≡ false

classify-ne-none :
    (parse : Parser) (rs : Ruleset) (async : Bool) (sql : Text) (nodes : List (Option Node))
    → parse sql ≡ some nodes
    → classify parse rs async sql ≢ none
unfolding classify
classify-ne-none parse rs async sql nodes p h = ground (arith, p, h)

-- What `reject` does with a simple query.
refuse_query :
    (e : Env) (parse : Parser) (now : ℕ) (random : Option Text) (s : Session) (m : Message)
    (sql : Text) (r : Result)
    → decode_frontend e.codec m.tag m.body ≡ Decoded.decoded (Frontend.query sql)
    → strip_async e.scan sql ≡ none
    → s.txn_aborted ≡ false
    → classify parse e.rules false sql ≡ some r
    → rejected r.verdict ≡ true
    → let t = handle_query (with_parser e parse) now random s m in
      (t.to_client
        ≡ (s.to_client ++ error_response (own_error r.verdict.code r.verdict.message) ∷ [])
          ++ (if s.tracker.in_txn then [] else ready_for_query s.tx_status ∷ []))
      × (t.to_upstream
          ≡ s.to_upstream ++ (if s.tracker.in_txn then query abort_transaction_query ∷ [] else []))
      × (t.tracker ≡ s.tracker)
      × (t.txn_aborted ≡ s.tracker.in_txn)
unfolding handle_query query_plain reject
refuse_query e parse now random s m sql r d p a c j = ground (
  arith,
  append-nil (s.to_client ++ error_response (own_error r.verdict.code r.verdict.message) ∷ []),
  append-nil s.to_upstream,
)

-- A text with a statement that violates a valid ruleset, sent as a simple query without an ASYNC form while
-- the transaction is not aborted, is not sent on: the client is sent an error with the code and the
-- message that the first violation is refused for, and, outside a transaction, a ReadyForQuery; the
-- upstream is sent nothing, or in a transaction the query that aborts it; the tracker is left alone.
pub unsupported_refused :
    (e : Env) (parse : Parser) (now : ℕ) (random : Option Text) (s : Session) (m : Message)
    (sql : Text) (nodes : List (Option Node))
    → IsUnsupported e parse s m sql nodes
    → let t = handle_query (with_parser e parse) now random s m in
      (v : Verdict) × IsRefusedFor false e.rules (present nodes) v
      × (t.to_client
          ≡ (s.to_client ++ error_response (own_error v.code v.message) ∷ [])
            ++ (if s.tracker.in_txn then [] else ready_for_query s.tx_status ∷ []))
      × (t.to_upstream
          ≡ s.to_upstream ++ (if s.tracker.in_txn then query abort_transaction_query ∷ [] else []))
      × (t.tracker ≡ s.tracker)
      × (t.txn_aborted ≡ s.tracker.in_txn)
unsupported_refused e parse now random s m sql nodes u =
    elim (Option-cases (classify parse e.rules false sql)) [
      | inl p ↦ absurd (classify-ne-none parse e.rules false sql nodes u.parsed p)
      | inr (r, p) ↦
          let j : rejected r.verdict ≡ true =
            classify-rejected parse e.rules false sql nodes r u.valid u.parsed p ∙ u.violating in
          let first =
            classify-IsRefusedFor parse e.rules false sql nodes r u.parsed u.violating p in
          let sent = refuse_query e parse now random s m sql r u.reads u.plain u.healthy p j in
          (r.verdict, first.0, sent.0, sent.1, sent.2, sent.3)
    ]
