-- ===== src/Conformance/Suites.antt =====
-- `CompareSuites`, `Unrecorded` and `Failures` of internal/conformance/compare.go.
use dsql_emulator.Prelude.{
  Bool, true, false, not, ◌&&◌, List, [], ◌∷◌, ◌++◌, is_nil, if◌then◌else◌, Option, none, some,
  Text, lit, text_eq, text_less, sort_by,
}
use dsql_emulator.Conformance.Data.{RecordedCase, Golden, Difference}
use dsql_emulator.Conformance.Race.{compare}

abbrev pub or_this : Option RecordedCase → RecordedCase → Text → Option RecordedCase
or_this (some later) c name = some later
or_this none c name = if text_eq c.probe.name name then some c else none

-- The map `index`: of cases with one name it holds the last.
unfoldable pub find_case : List RecordedCase → Text → Option RecordedCase
find_case [] name = none
find_case (c ∷ cases) name = or_this (find_case cases name) c name

abbrev pub missing : RecordedCase → Difference
missing want = record {
  name = want.probe.name;
  session = 0;
  steps = [];
  step = 0;
  field = lit "missing";
  golden = lit "present";
  emulator = lit "absent";
  advisory = false;
  known_gap = [];
}

-- The body of the loop over the recorded cases.
unfoldable pub compare_with : RecordedCase → Option RecordedCase → List Difference
compare_with want (some got) = compare want got
compare_with want none = if want.probe.record_only then [] else missing want ∷ []

unfoldable pub compare_all : List RecordedCase → List RecordedCase → List Difference
unfolding find_case compare_with
compare_all emulated [] = []
compare_all emulated (want ∷ wants) =
    compare_with want (find_case emulated want.probe.name) ++ compare_all emulated wants

unfoldable pub compare_suites : Golden → Golden → List Difference
unfolding compare_all
compare_suites golden emulated = compare_all emulated.cases golden.cases

-- The map `recorded`.
unfoldable pub is_recorded : List RecordedCase → Text → Bool
is_recorded [] name = false
is_recorded (c ∷ cases) name = if text_eq c.probe.name name then true else is_recorded cases name

unfoldable pub not_recorded : List RecordedCase → List RecordedCase → List Text
unfolding is_recorded
not_recorded recorded [] = []
not_recorded recorded (c ∷ cases) =
    let rest = not_recorded recorded cases in
    if is_recorded recorded c.probe.name then rest else c.probe.name ∷ rest

unfoldable pub unrecorded : Golden → Golden → List Text
unfolding not_recorded
unrecorded golden emulated = sort_by text_less (not_recorded golden.cases emulated.cases)

unfoldable pub failures : List Difference → List Difference
failures [] = []
failures (d ∷ diffs) =
    let rest = failures diffs in if not d.advisory && is_nil d.known_gap then d ∷ rest else rest
