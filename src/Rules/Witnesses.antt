-- ===== src/Rules/Witnesses.antt =====
-- The theorem on `validate` at a small ruleset.
use dsql_emulator.Prelude.{◌≡◌, ◌↔◌, [], ◌∷◌, none, lit, pos, negsuc}
use dsql_emulator.Rules.{Ruleset}
use dsql_emulator.Rules.Validate.{validate, IsValid, validate-IsValid}

abbrev small : Ruleset
small = record {
  dsql_version = lit "2026.09";
  unsupported = [];
  isolation = record { supported = lit "repeatable read" ∷ [] };
  limits = record { dml_rows_per_txn = pos 3000; txn_age_seconds = pos 1800 };
  occ = record {
    sources = [];
    key_columns_only_for = [];
    error = [];
    sql_state = [];
    inject = record { id = lit "third"; tables = lit "t" ∷ []; every = negsuc 2 } ∷ [];
    lock_timeout_ms = pos 50;
  };
}

validate-IsValid_example : (validate small ≡ none) ↔ IsValid small
validate-IsValid_example = validate-IsValid small
