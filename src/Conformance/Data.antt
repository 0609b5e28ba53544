-- ===== src/Conformance/Data.antt =====
-- The data of internal/conformance: suite.go, record.go and compare.go. An empty list of columns, rows or
-- results stands for the nil slice, which is what the source leaves where it appends nothing.
use dsql_emulator.Prelude.{ℕ, Bool, List, Text}

-- `Case`, without the Note, which nothing reads.
pub record Case : Type 0 where
  pub name : Text
  pub group : Text
  pub steps : List Text
  pub ignore_rows : Bool
  pub known_gap : Text
  pub sessions : List (List Text)
  pub record_only : Bool
  pub simple_protocol : Bool
  pub conflict_race : Bool

pub record Result : Type 0 where
  pub command_tag : Text
  pub columns : List Text
  pub rows : List (List Text)

pub record Observation : Type 0 where
  pub outcome : Text
  pub sqlstate : Text
  pub message : Text
  pub command_tag : Text
  pub columns : List Text
  pub rows : List (List Text)
  pub results : List Result

-- `RecordedCase`: the embedded `Case` is `probe`.
pub record RecordedCase : Type 0 where
  pub probe : Case
  pub observations : List Observation
  pub session_results : List (List Observation)

-- `Golden`; a time is a number of nanoseconds.
pub record Golden : Type 0 where
  pub recorded_at : ℕ
  pub target : Text
  pub server_version : Text
  pub suite : Text
  pub cases : List RecordedCase

-- `Difference`: its Case is `name`.
pub record Difference : Type 0 where
  pub name : Text
  pub session : ℕ
  pub steps : List Text
  pub step : ℕ
  pub field : Text
  pub golden : Text
  pub emulator : Text
  pub advisory : Bool
  pub known_gap : Text
