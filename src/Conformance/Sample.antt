-- ===== src/Conformance/Sample.antt =====
-- Small records for tests.
use dsql_emulator.Prelude.{
  ℕ, Bool, true, false, List, [], ◌∷◌, Option, none, some, if◌then◌else◌, ◌==◌, Text, lit, inr,
}
use dsql_emulator.Conformance.Data.{Case, Observation, RecordedCase, Golden}
use dsql_emulator.Conformance.Run.{Target, Suite}
use dsql_emulator.Conformance.Files.{Disk, Store}
use dsql_emulator.Conformance.Observe.{Failure, ok_with, error_with}

abbrev pub case_named : Text → Bool → Bool → Case
case_named name ignore race = record {
  name = name;
  group = lit "sample";
  steps = lit "SELECT 1" ∷ [];
  ignore_rows = ignore;
  known_gap = [];
  sessions = [];
  record_only = false;
  simple_protocol = false;
  conflict_race = race;
}

abbrev pub selected : Text → List (List Text) → Observation
selected tag rows = ok_with tag (lit "x" ∷ []) rows []

abbrev pub two_statements : Observation
two_statements =
    ok_with [] [] []
      (record { command_tag = lit "SELECT 1"; columns = []; rows = (lit "1" ∷ []) ∷ [] } ∷ [])

-- A query whose rows are ignored, and one step of two statements.
abbrev pub counted : Text → List (List Text) → RecordedCase
counted tag rows = record {
  probe = case_named (lit "counted") true false;
  observations = selected tag rows ∷ two_statements ∷ error_with (lit "0A000") (lit "no") ∷ [];
  session_results = [];
}

abbrev pub golden_at : ℕ → Text → List (List Text) → Golden
golden_at time tag rows = record {
  recorded_at = time;
  target = lit "dsql";
  server_version = [];
  suite = lit "baseline";
  cases = counted tag rows ∷ [];
}

abbrev pub committed : Observation
committed = ok_with (lit "COMMIT") [] [] []

abbrev pub lost : Text → Observation
lost code = error_with code (lit "conflict")

-- A race of two sessions, which end as given.
abbrev pub race_of : Observation → Observation → RecordedCase
race_of a b = record {
  probe = case_named (lit "race") false true;
  observations = [];
  session_results = (committed ∷ a ∷ []) ∷ (committed ∷ b ∷ []) ∷ [];
}

abbrev pub conflict : Failure
conflict = record {
  text = lit "conflict";
  server = some (record { code = lit "40001"; message = lit "conflict" });
}

-- Two conflicts, and then a success.
abbrev pub third_time : ℕ → Option Failure
third_time k = if k == 2 then none else some conflict

abbrev pub never_cut : ℕ → Option Failure
never_cut k = none

-- A target that answers every step, and every statement of a script as given.
abbrev pub target_with : Option Failure → Target
target_with answer = record {
  connects = none;
  version = some (lit "PostgreSQL 16");
  now = 1;
  exec = λ calls sql attempt. answer;
  cut_short = λ calls sql attempt. none;
  observe = λ calls simple sql. selected (lit "SELECT 1") ((lit "1" ∷ []) ∷ []);
  is_closed = λ calls. false;
  run_sessions = λ calls c. inr [];
}

abbrev pub refused : Failure
refused = record { text = lit "refused"; server = none }

abbrev pub small_suite : Suite
small_suite = record {
  name = lit "small";
  setup = lit "CREATE TABLE t (id int)" ∷ [];
  verify = lit "SELECT 1 FROM t" ∷ [];
  cleanup = lit "DROP TABLE t" ∷ [];
  cases = case_named (lit "one") false false ∷ case_named (lit "two") true false ∷ [];
}

-- A disk on which every write fails, and leaves an empty file.
abbrev pub full_disk : Disk
full_disk = record {
  unmarshal = λ bytes. none;
  marshal = λ golden. some [];
  marshal_indent = λ golden. some (lit "{}");
  write_fails = λ store name. some (some []);
  remove_fails = λ store name. false;
}

abbrev pub saved_before : Store
saved_before = (lit "stale.json", lit "{}") ∷ []
