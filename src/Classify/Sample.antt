-- ===== src/Classify/Sample.antt =====
-- A small ruleset and a few statements, for tests and examples.
use dsql_emulator.Prelude.{true, false, List, [], ◌∷◌, Option, none, some, Text, lit, pos}
use dsql_emulator.Rules.{Rule, Ruleset}
use dsql_emulator.Classify.{Parser}
use dsql_emulator.Classify.Syntax.{
  Tree, msg, nil, cons, Statement, Node, RangeVar, other_stmt, insert_stmt, variable_set_stmt,
  node_type,
}

abbrev pub rule_of : Text → Text → Rule
rule_of id stmt = record {
  id = id;
  stmt = stmt;
  relpersistence = [];
  column_type = [];
  objtype = [];
  txn_kind = [];
  set_name = [];
  column_array = false;
  remove_type = [];
  rename_type = [];
  locking = [];
  function = [];
  contains = [];
  vacuum_kind = [];
  show_name = [];
  alter_action = [];
  add_constraint_missing_not_valid = false;
  add_constraint_type = [];
  add_column_constraint = [];
  language_not = [];
  identity_type_not = [];
  unless_async = false;
  sequence_cache_min = none;
  identity_cache_min = none;
  cache_allow = [];
  code = lit "0A000";
  message = lit "unsupported statement";
  since = [];
}

-- CREATE INDEX has to be given in its ASYNC form.
abbrev pub sync_index : Rule
sync_index = record (rule_of (lit "sync_index") (lit "index_stmt")) { unless_async = true }

-- A statement that calls a function of text search.
abbrev pub text_search : Rule
text_search = record (rule_of (lit "text_search") (lit "insert_stmt")) {
  function = lit "to_tsvector" ∷ [];
}

abbrev pub rules : Ruleset
rules = record {
  dsql_version = lit "2026.09";
  unsupported = rule_of (lit "truncate") (lit "truncate_stmt") ∷ sync_index ∷ text_search ∷ [];
  isolation = record { supported = lit "repeatable read" ∷ [] };
  limits = record { dml_rows_per_txn = pos 3000; txn_age_seconds = pos 1800 };
  occ = record {
    sources = [];
    key_columns_only_for = [];
    error = [];
    sql_state = [];
    inject = [];
    lock_timeout_ms = pos 50;
  };
}

abbrev leaf : Text → Tree
leaf name =
    msg (lit "Node") (some (record { node_type = name; func_name = none; param_ref = none })) nil

abbrev call : Text → Tree
call name =
    msg (lit "Node")
      (some (record {
        node_type = lit "func_call";
        func_name = some (some name ∷ []);
        param_ref = none;
      }))
      nil

abbrev plain : Statement → Node
unfolding node_type
plain s = record { statement = s; tree = leaf (node_type s) }

abbrev pub truncate : Node
unfolding plain
truncate = plain (other_stmt (lit "truncate_stmt"))

abbrev pub index : Node
unfolding plain
index = plain (other_stmt (lit "index_stmt"))

abbrev pub widget : Option RangeVar
widget = some (record { relname = lit "widget"; relpersistence = lit "p" })

-- INSERT, with two calls in either order.
abbrev pub insert_with : Text → Text → Node
insert_with f g = record {
  statement = insert_stmt widget;
  tree = msg (lit "Node") none (cons (call f) (cons (call g) nil));
}

abbrev pub insert : Node
insert = insert_with (lit "now") (lit "random")

abbrev pub parse_as : List (Option Node) → Parser
parse_as nodes sql = some nodes

-- SET TRANSACTION ISOLATION LEVEL.
abbrev pub set_level : Text → Statement
set_level level =
    variable_set_stmt (lit "TRANSACTION")
      (some (record {
        defname = lit "transaction_isolation";
        const_arg = some level;
        string_arg = none;
        integer_arg = none;
      })
        ∷ [])
      []
