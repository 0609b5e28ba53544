-- ===== src/Conformance/Observe.antt =====
-- internal/conformance/record.go: what a target answered to one step, its summary, and the retries of a
-- schema statement. The connection's answers are arguments.
use dsql_emulator.Prelude.{
  ℕ, zero, suc, Bool, true, false, not, ◌||◌, List, [], ◌∷◌, ◌++◌, map, is_nil, if◌then◌else◌,
  Option, none, some, Text, lit, text_eq, itoa, ◌==◌,
}
use dsql_emulator.Conformance.Data.{Result, Observation}

-- An error of a call, with the `pgconn.PgError` that `errors.As` finds in it.
pub record PgError : Type 0 where
  pub code : Text
  pub message : Text

pub record Failure : Type 0 where
  pub text : Text
  pub server : Option PgError

abbrev pub ok_with : Text → List Text → List (List Text) → List Result → Observation
ok_with tag columns rows results = record {
  outcome = lit "ok";
  sqlstate = [];
  message = [];
  command_tag = tag;
  columns = columns;
  rows = rows;
  results = results;
}

abbrev pub error_with : Text → Text → Observation
error_with sqlstate message = record {
  outcome = lit "error";
  sqlstate = sqlstate;
  message = message;
  command_tag = [];
  columns = [];
  rows = [];
  results = [];
}

abbrev pub failed_as : Text → Option PgError → Observation
failed_as text none = error_with [] text
failed_as text (some e) = error_with e.code e.message

unfoldable pub failed_observation : Failure → Observation
failed_observation f = failed_as f.text f.server

unfoldable pub answered : Observation → Bool
answered o = not (text_eq o.outcome (lit "error")) || not (is_nil o.sqlstate)

abbrev pub raw_value : Option Text → Text
raw_value none = lit "NULL"
raw_value (some v) = v

unfoldable pub format_raw_values : List (Option Text) → List Text
format_raw_values = map raw_value

-- One result that `ReadAll` gives.
pub record RawResult : Type 0 where
  pub command_tag : Text
  pub field_names : List Text
  pub rows : List (List (Option Text))

abbrev pub result_of : RawResult → Result
unfolding format_raw_values
result_of r = record {
  command_tag = r.command_tag;
  columns = r.field_names;
  rows = map format_raw_values r.rows;
}

-- `ObserveSimple`, from the results that `ReadAll` gives and its error.
unfoldable pub observe_simple : List RawResult → Option Failure → Observation
unfolding format_raw_values failed_observation
observe_simple results none = ok_with [] [] [] (map result_of results)
observe_simple results (some f) = failed_observation f

unfoldable pub is_serialization_failure : Failure → Bool
is_serialization_failure f = elim f.server [ none ↦ false | some e ↦ text_eq e.code (lit "40001") ]

abbrev pub schema_attempts : ℕ
schema_attempts = 5

-- An attempt, counted from 0: `exec` answers it, after a delay that the context may cut short.
unfoldable pub retrying :
    (exec cut_short : ℕ → Option Failure) → Option Failure → (attempt left : ℕ) → Option Failure
unfolding is_serialization_failure
retrying exec cut_short err attempt zero = err
retrying exec cut_short err attempt (suc left) =
    elim (if attempt == 0 then none else cut_short attempt) [
      | some f ↦ some f
      | none ↦ elim (exec attempt) [
        | none ↦ none
        | some f ↦ elim (is_serialization_failure f) [
          | true ↦ retrying exec cut_short (some f) (suc attempt) left
          | false ↦ some f
        ]
      ]
    ]

unfoldable pub exec_retrying_conflicts : (exec cut_short : ℕ → Option Failure) → Option Failure
unfolding retrying
exec_retrying_conflicts exec cut_short = retrying exec cut_short none 0 schema_attempts

-- The texts with a separator before each but the first.
unfoldable pub joined : Text → List Text → Text
joined sep [] = []
joined sep (s ∷ []) = s
joined sep (s ∷ t ∷ rest) = s ++ sep ++ joined sep (t ∷ rest)

abbrev pub summary_of : Observation → Text
unfolding joined
summary_of o =
    if text_eq o.outcome (lit "error")
    then lit "error " ++ o.sqlstate
    else if not (is_nil o.results)
    then joined (lit " + ") (map (λ (r : Result). r.command_tag) o.results)
    else o.command_tag

unfoldable pub summarize : List Observation → Text
unfolding joined
summarize observations = joined (lit " | ") (map summary_of observations)

unfoldable pub summaries : ℕ → List (List Observation) → List Text
unfolding summarize
summaries i [] = []
summaries i (obs ∷ sessions) =
    (lit "session " ++ itoa i ++ lit ": " ++ summarize obs) ∷ summaries (suc i) sessions

unfoldable pub summarize_sessions : List (List Observation) → Text
unfolding joined summaries
summarize_sessions sessions = joined (lit " || ") (summaries 0 sessions)
