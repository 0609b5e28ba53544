-- ===== src/Classify/Witnesses.antt =====
-- The theorems on internal/classify at the statements of the sample.
use dsql_emulator.Prelude.{
  ◌≡◌, refl, Bool, true, false, List, [], ◌∷◌, Option, none, some, is_some, arith, lit, text_eq,
  contains, pos, has_text,
}
use dsql_emulator.Kind.{Kind}
use dsql_emulator.Verdict.{Result, rejected}
use dsql_emulator.Rules.Validate.{validate, rules_fault, rule_fault, occ_fault, injections_fault}
use dsql_emulator.Txn.{Tracker, admit}
use dsql_emulator.Classify.{classify, accepted, refusal, scan, refuse, broken_rule, rule_verdict}
use dsql_emulator.Classify.Syntax.{Node, Constraint, ColumnDef, create_stmt, node_type}
use dsql_emulator.Classify.Columns.{present}
use dsql_emulator.Classify.Options.{
  has_small_identity_cache, any_small_column, any_small_cache, cache_too_small, contains_int,
  def_elem_int, find_option,
}
use dsql_emulator.Classify.Match.{matches, intersects}
use dsql_emulator.Classify.Walk.{function_names, last_name}
use dsql_emulator.Classify.Kinds.{kind_of, statement_tables}
use dsql_emulator.Classify.Isolation.{isolation_level, unsupported_isolation}
use dsql_emulator.Classify.Refusal.{fill}
use dsql_emulator.Classify.Violations.{any_violates, classify-rejected}
use dsql_emulator.Classify.Reasons.{IsRefusedFor, classify-IsRefusedFor}
use dsql_emulator.Classify.Async.{classify_async}
use dsql_emulator.Classify.Order.{same, swapped, Agrees, classify-Agrees}
use dsql_emulator.Classify.Writes.{has_boundary, any_write, write_after_ddl}
use dsql_emulator.Classify.Sample.{rules, truncate, index, insert, insert_with, widget, parse_as}

rules-valid : validate rules ≡ none
unfolding validate rules_fault rule_fault occ_fault injections_fault contains text_eq lit
rules-valid = refl

-- INSERT; CREATE INDEX.
abbrev both_statements : List (Option Node)
both_statements = some insert ∷ none ∷ some index ∷ []

abbrev index_refused : Result
index_refused = refusal (record {
  rule_id = lit "sync_index";
  code = lit "0A000";
  message = lit "unsupported statement";
})

refused : classify (parse_as both_statements) rules false (lit "q") ≡ some index_refused
unfolding classify scan refuse broken_rule rule_verdict matches intersects function_names last_name
    unsupported_isolation isolation_level fill has_text present node_type lit text_eq contains
    kind_of statement_tables
refused = refl

classify-rejected_example :
    rejected index_refused.verdict ≡ any_violates false rules (present both_statements)
classify-rejected_example =
    classify-rejected (parse_as both_statements) rules false (lit "q") both_statements index_refused
      rules-valid refl refused

violating : any_violates false rules (present both_statements) ≡ true
unfolding any_violates matches intersects function_names last_name unsupported_isolation
    isolation_level present node_type lit text_eq contains
violating = refl

classify-IsRefusedFor_example :
    IsRefusedFor false rules (present both_statements) index_refused.verdict
    × (index_refused.kinds ≡ [])
    × (index_refused.tables ≡ [])
classify-IsRefusedFor_example =
    classify-IsRefusedFor (parse_as both_statements) rules false (lit "q") both_statements
      index_refused refl violating refused

abbrev truncate_refused : Result
truncate_refused =
    refusal (record {
      rule_id = lit "truncate";
      code = lit "0A000";
      message = lit "unsupported statement";
    })

truncate_is_refused :
    (async : Bool)
    → classify (parse_as (some truncate ∷ [])) rules async (lit "q") ≡ some truncate_refused
unfolding classify scan refuse broken_rule rule_verdict matches intersects function_names last_name
    unsupported_isolation isolation_level fill has_text present node_type lit text_eq contains
truncate_is_refused async = refl

classify_async_example : rejected truncate_refused.verdict ≡ true
unfolding lit
classify_async_example =
    classify_async (parse_as (some truncate ∷ [])) rules (lit "q") (some truncate ∷ [])
      truncate_refused truncate_refused rules-valid refl (truncate_is_refused true)
      (truncate_is_refused false) refl

-- The same INSERT, its two calls the other way round.
abbrev turned : Node
turned = insert_with (lit "random") (lit "now")

abbrev inserted : Result
inserted = record { verdict = accepted.verdict; kinds = Kind.dml ∷ []; tables = lit "widget" ∷ [] }

insert_accepted : classify (parse_as (some insert ∷ [])) rules false (lit "q") ≡ some inserted
unfolding classify scan refuse broken_rule matches intersects function_names last_name
    unsupported_isolation isolation_level present node_type lit text_eq contains kind_of
    statement_tables
insert_accepted = refl

turned_accepted : classify (parse_as (some turned ∷ [])) rules false (lit "q") ≡ some inserted
unfolding classify scan refuse broken_rule matches intersects function_names last_name
    unsupported_isolation isolation_level present node_type lit text_eq contains kind_of
    statement_tables
turned_accepted = refl

classify-Agrees_example : Agrees inserted inserted
unfolding present
classify-Agrees_example =
    classify-Agrees (parse_as (some insert ∷ [])) (parse_as (some turned ∷ [])) rules false
      (lit "q") (some insert ∷ []) (some turned ∷ []) inserted inserted refl refl
      (record { statement = refl; tree = same _ _ (swapped _ _ _) }, tt) insert_accepted
      turned_accepted

-- An identity column with CACHE 100.
abbrev small_cache : Constraint
small_cache = record {
  contype = lit "CONSTR_IDENTITY";
  indexname = [];
  skip_validation = false;
  options =
      some (record {
        defname = lit "cache";
        const_arg = none;
        string_arg = none;
        integer_arg = some (pos 100);
      })
      ∷ [];
}

abbrev columns : List (Option ColumnDef)
columns = some (record { type_name = none; constraints = some small_cache ∷ [] }) ∷ []

small_cache_refused :
    has_small_identity_cache (create_stmt widget columns) (pos 65536) (pos 1 ∷ []) ≡ true
unfolding has_small_identity_cache any_small_column any_small_cache cache_too_small contains_int
    def_elem_int find_option present text_eq lit
small_cache_refused = refl

-- A transaction that has run a DDL statement.
abbrev altered : Tracker
altered = record {
  limits = record { max_age = 300 };
  in_txn = true;
  began_at = some 5;
  ddl_count = 1;
  dml_seen = false;
}

write_after_ddl_example : is_some (admit altered inserted.kinds 9).1 ≡ true
unfolding has_boundary any_write present
write_after_ddl_example =
    write_after_ddl (parse_as (some insert ∷ [])) rules false (lit "q") (some insert ∷ []) inserted
      altered 9 rules-valid refl insert_accepted refl refl refl refl (ground arith)
