-- ===== src/Rules.antt =====
-- rules/rules.go: the ruleset, as it is after `yaml.v3` has decoded it.
pub mod Validate
mod Witnesses
use dsql_emulator.Prelude.{ℕ, Bool, List, Option, Text, ℤ}

pub record Isolation : Type 0 where
  pub supported : List Text

pub record Rule : Type 0 where
  pub id : Text
  pub stmt : Text
  pub relpersistence : List Text
  pub column_type : List Text
  pub objtype : List Text
  pub txn_kind : List Text
  pub set_name : List Text
  pub column_array : Bool
  pub remove_type : List Text
  pub rename_type : List Text
  pub locking : List Text
  pub function : List Text
  pub contains : List Text
  pub vacuum_kind : List Text
  pub show_name : List Text
  pub alter_action : List Text
  pub add_constraint_missing_not_valid : Bool
  pub add_constraint_type : List Text
  pub add_column_constraint : List Text
  pub language_not : List Text
  pub identity_type_not : List Text
  pub unless_async : Bool
  pub sequence_cache_min : Option ℤ
  pub identity_cache_min : Option ℤ
  pub cache_allow : List ℤ
  pub code : Text
  pub message : Text
  pub since : Text

pub record Limits : Type 0 where
  pub dml_rows_per_txn : ℤ
  pub txn_age_seconds : ℤ

pub record OccInjection : Type 0 where
  pub id : Text
  pub tables : List Text
  pub every : ℤ

pub record Occ : Type 0 where
  pub sources : List Text
  pub key_columns_only_for : List Text
  pub error : Text
  pub sql_state : Text
  pub inject : List OccInjection
  pub lock_timeout_ms : ℤ

pub record Ruleset : Type 0 where
  pub dsql_version : Text
  pub unsupported : List Rule
  pub isolation : Isolation
  pub limits : Limits
  pub occ : Occ
