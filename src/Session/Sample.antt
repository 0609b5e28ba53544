-- ===== src/Session/Sample.antt =====
-- A small environment in which the session runs: a codec that takes a body for the field that it
-- carries, and a classifier that knows a few statements. Tests and examples use it.
use dsql_emulator.Prelude.{
  ℕ, Bool, true, false, List, [], ◌∷◌, Option, none, some, Text, lit, text_eq, if◌then◌else◌, pos,
  negsuc,
}
use dsql_emulator.Kind.{Kind, select, dml, ddl, begin, commit, rollback}
use dsql_emulator.Verdict.{Result}
use dsql_emulator.Occ.{Intent}
use dsql_emulator.Rules.{Ruleset, OccInjection}
use dsql_emulator.Txn
use dsql_emulator.Wire.{Message, Parse, Bind, ErrorResponse, Codec}
use dsql_emulator.Session.State.{Env, Session}

abbrev pub error_of : Text → ErrorResponse
error_of code = record {
  severity = lit "ERROR";
  code = code;
  message = lit "could not obtain lock";
  detail = lit "detail";
  hint = [];
  rest = [];
}

abbrev first_byte : Text → Option ℕ
first_byte [] = none
first_byte (c ∷ s) = some c

-- The name of a prepared statement is the first byte of the body.
abbrev parse_of : Text → Option Parse
parse_of [] = none
parse_of (c ∷ s) = some (record { name = c ∷ []; query = s; rest = [] })

abbrev bind_of : Text → Option Bind
bind_of s = some (record {
  prepared_statement = s;
  parameters = [];
  parameter_format_codes = [];
  result_format_codes = [];
})

abbrev pub codec : Codec
codec = record {
  decode_query = λ s. some s;
  decode_parse = parse_of;
  decode_bind = bind_of;
  decode_close = λ s. some (record { object_type = b'S'; name = s });
  decodes_plain = λ t s. true;
  decode_error = λ s. some (error_of s);
  decode_ready = first_byte;
  decode_status = λ s. some (record { name = s; value = lit "17.2" });
  decodes_complete = λ s. true;
  decode_row = λ s. some (some s ∷ []);
  encodes_query = λ s. true;
  encodes_parse = λ p. true;
  encodes_error = λ r. true;
  encodes_status = λ p. true;
}

abbrev pub every_third : OccInjection
every_third = record { id = lit "third"; tables = lit "t" ∷ []; every = pos 3 }

abbrev pub ruleset_of : List OccInjection → Ruleset
ruleset_of injections = record {
  dsql_version = lit "2026.09";
  unsupported = [];
  isolation = record { supported = lit "repeatable read" ∷ [] };
  limits = record { dml_rows_per_txn = pos 3000; txn_age_seconds = pos 1800 };
  occ = record {
    sources = [];
    key_columns_only_for = [];
    error = [];
    sql_state = [];
    inject = injections;
    lock_timeout_ms = pos 50;
  };
}

abbrev accepted : List Kind → List Text → Option Result
accepted kinds tables = some (record {
  verdict = record { rule_id = []; code = []; message = [] };
  kinds = kinds;
  tables = tables;
})

abbrev refused_result : Option Result
refused_result = some (record {
  verdict = record { rule_id = lit "truncate"; code = lit "0A000"; message = lit "unsupported" };
  kinds = [];
  tables = [];
})

unfoldable pub classify_sample : Bool → Text → Option Result
classify_sample async sql =
    if text_eq sql (lit "BEGIN")
    then accepted (begin ∷ []) []
    else if text_eq sql (lit "COMMIT")
    then accepted (commit ∷ []) []
    else if text_eq sql (lit "ROLLBACK")
    then accepted (rollback ∷ []) []
    else if text_eq sql (lit "UPDATE t")
    then accepted (dml ∷ []) (lit "t" ∷ [])
    else if text_eq sql (lit "CREATE")
    then accepted (ddl ∷ []) []
    else if text_eq sql (lit "TRUNCATE")
    then refused_result
    else accepted (select ∷ []) []

abbrev pub update_intent : Intent
update_intent = record {
  tag = lit "UPDATE";
  rows = negsuc 0;
  shadow = lit "SELECT count(*) FROM t";
  rowset = false;
  params = [];
}

unfoldable pub analyze_sample : Text → Option Intent
analyze_sample sql = if text_eq sql (lit "UPDATE t") then some update_intent else none

abbrev pub env : Env
env = record {
  rules = ruleset_of [];
  server_version = lit "16.15";
  codec = codec;
  classify = classify_sample;
  analyze = analyze_sample;
  scan = λ s. none;
}

abbrev pub injecting : Env
injecting = record env { rules = ruleset_of (every_third ∷ []) }

-- A session as `serve` of internal/proxy/proxy.go makes it.
unfoldable pub new_session : Txn.Limits → Session
unfolding Txn.new
new_session limits = record {
  tracker = Txn.new limits;
  tx_status = b'I';
  skip_sync = false;
  pending_command_tag = [];
  txn_aborted = false;
  failure = none;
  failure_rfqs = 0;
  pending_failure = none;
  occ_touched = [];
  occ_commits = λ i. 0;
  hidden = none;
  occ_savepoint = false;
  occ_doomed = false;
  occ_txn_statements = 0;
  occ_in_flight = none;
  occ_repair = none;
  extended_batch_open = false;
  pending_exchanges = 0;
  job = none;
  statements = [];
  ended = false;
  to_client = [];
  to_upstream = [];
}

abbrev pub limits : Txn.Limits
limits = record { max_age = 1800000000000 }

abbrev pub message : ℕ → Text → Message
message tag body = record { tag = tag; body = body; raw = tag ∷ body }

abbrev pub ask : Text → Message
ask sql = message b'Q' sql

abbrev pub ready_with : ℕ → Message
ready_with status = message b'Z' (status ∷ [])
