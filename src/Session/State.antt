-- ===== src/Session/State.antt =====
-- internal/proxy/session.go and adjudicator.go: the state of a session, and what it writes.
-- Each message of a connection is handled as one step, and the two logs hold what was written so far.
-- A write to a connection is taken to succeed: where it fails the session ends.
use dsql_emulator.Prelude.{ℕ, Bool, List, Option, Text, ℤ}
use dsql_emulator.Kind.{Kind}
use dsql_emulator.Verdict.{Result}
use dsql_emulator.Txn.{Tracker}
use dsql_emulator.Occ.{Intent}
use dsql_emulator.Rules.{Ruleset}
use dsql_emulator.Rewrite.{Token}
use dsql_emulator.Wire.{Message, Parse, Bind, ErrorResponse, ParameterStatus, Codec}

-- What a session is given: the ruleset, the version to report, the classifier, the analysis of
-- conflicts, and what stands outside the repository, the codec and the scanner.
-- `classify true` is the call with `AsyncRewritten()`; `none` is a parse error.
pub record Env : Type 0 where
  pub rules : Ruleset
  pub server_version : Text
  pub codec : Codec
  pub classify : Bool → Text → Option Result
  pub analyze : Text → Option Intent
  pub scan : Text → Option (List Token)

-- What the client is sent: a message of the upstream as it came, or one of the emulator's own.
pub data ClientMessage : Type 0 where
  relayed : Message → ClientMessage
  error_response : ErrorResponse → ClientMessage
  ready_for_query : ℕ → ClientMessage
  command_complete : Text → ClientMessage
  parameter_status : ParameterStatus → ClientMessage
  job_id_row_description : ClientMessage
  job_id_data_row : Text → ClientMessage

pub data UpstreamMessage : Type 0 where
  forwarded : Message → UpstreamMessage
  query : Text → UpstreamMessage
  parse : Parse → UpstreamMessage
  bind : Bind → UpstreamMessage
  execute sync : UpstreamMessage

pub record TxnFailure : Type 0 where
  pub statement : Text
  pub status : ℕ
  pub swallow : ℕ

pub record InFlight : Type 0 where
  pub intent : Intent
  pub extended : Bool
  pub formats : List ℕ
  pub params : List (Option Text)
  pub param_formats : List ℕ

-- The closures of the source that a `hiddenExchange` holds, each with the variables that it captures.
pub data Hidden : Type 0 where
  savepoint : Bool → Hidden
  restoring : InFlight → Bool → Hidden
  counting : InFlight → Bool → ℤ → Hidden
  rows_of : InFlight → Bool → Hidden

pub record StatementInfo : Type 0 where
  pub kinds : List Kind
  pub tables : List Text
  pub intent : Option Intent
  pub job_id : Text

pub record JobResult : Type 0 where
  pub described : Bool
  pub job_id : Text
  pub preceding_tags : ℕ

pub record Session : Type 0 where
  pub tracker : Tracker
  pub tx_status : ℕ
  pub skip_sync : Bool
  pub pending_command_tag : Text
  pub txn_aborted : Bool
  pub failure : Option TxnFailure
  pub failure_rfqs : ℕ
  pub pending_failure : Option TxnFailure
  pub occ_touched : List Text
  pub occ_commits : ℕ → ℕ
  pub hidden : Option Hidden
  pub occ_savepoint : Bool
  pub occ_doomed : Bool
  pub occ_txn_statements : ℕ
  pub occ_in_flight : Option InFlight
  pub occ_repair : Option InFlight
  pub extended_batch_open : Bool
  pub pending_exchanges : ℕ
  pub job : Option JobResult
  pub statements : List (Text × StatementInfo)
  pub ended : Bool
  pub to_client : List ClientMessage
  pub to_upstream : List UpstreamMessage
