-- ===== src/Session/Classified/Witnesses.antt =====
-- The session with the classifier, at a TRUNCATE in an open transaction.
use dsql_emulator.Prelude.{
  ◌≡◌, refl, true, false, [], ◌∷◌, ◌++◌, none, some, if◌then◌else◌, lit, text_eq, contains,
}
use dsql_emulator.Txn.{new}
use dsql_emulator.Wire.{decode_frontend}
use dsql_emulator.Rewrite.{strip_async}
use dsql_emulator.Verdict.{Verdict}
use dsql_emulator.Rules.Validate.{validate, rules_fault, rule_fault, occ_fault, injections_fault}
use dsql_emulator.Classify.Sample
use dsql_emulator.Classify.Syntax.{node_type}
use dsql_emulator.Classify.Columns.{present}
use dsql_emulator.Classify.Match.{matches}
use dsql_emulator.Classify.Isolation.{unsupported_isolation, isolation_level}
use dsql_emulator.Classify.Violations.{any_violates}
use dsql_emulator.Classify.Reasons.{IsRefusedFor}
use dsql_emulator.Session.State.{Env, Session, error_response, ready_for_query, query}
use dsql_emulator.Session.Classified.{IsUnsupported, with_parser, unsupported_refused}
use dsql_emulator.Session.Output.{own_error}
use dsql_emulator.Session.Failure.{abort_transaction_query}
use dsql_emulator.Session.Frontend.{handle_query}
use dsql_emulator.Session.Sample.{env, limits, new_session, ask}

-- A transaction is open.
abbrev opened : Session
unfolding new_session new
opened = record (new_session limits) {
  tracker = record {
    limits = limits;
    in_txn = true;
    began_at = some 7;
    ddl_count = 0;
    dml_seen = false;
  };
}

abbrev with_rules : Env
with_rules = record env { rules = Sample.rules }

truncate-IsUnsupported :
    IsUnsupported with_rules
      (Sample.parse_as (some Sample.truncate ∷ []))
      opened
      (ask (lit "TRUNCATE"))
      (lit "TRUNCATE")
      (some Sample.truncate ∷ [])
unfolding lit decode_frontend strip_async new_session new validate rules_fault rule_fault occ_fault
    injections_fault contains text_eq any_violates matches unsupported_isolation isolation_level
    present node_type
truncate-IsUnsupported = record {
  reads = refl;
  plain = refl;
  valid = refl;
  parsed = refl;
  violating = refl;
  healthy = refl;
}

unsupported_refused_example :
    let t =
      handle_query
        (with_parser with_rules (Sample.parse_as (some Sample.truncate ∷ [])))
        9
        none
        opened
        (ask (lit "TRUNCATE")) in
    (v : Verdict) × IsRefusedFor false Sample.rules (present (some Sample.truncate ∷ [])) v
    × (t.to_client
        ≡ (opened.to_client ++ error_response (own_error v.code v.message) ∷ [])
          ++ (if opened.tracker.in_txn then [] else ready_for_query opened.tx_status ∷ []))
    × (t.to_upstream
        ≡ opened.to_upstream
          ++ (if opened.tracker.in_txn then query abort_transaction_query ∷ [] else []))
    × (t.tracker ≡ opened.tracker)
    × (t.txn_aborted ≡ opened.tracker.in_txn)
unsupported_refused_example =
    unsupported_refused with_rules (Sample.parse_as (some Sample.truncate ∷ [])) 9 none opened
      (ask (lit "TRUNCATE")) (lit "TRUNCATE") (some Sample.truncate ∷ []) truncate-IsUnsupported
