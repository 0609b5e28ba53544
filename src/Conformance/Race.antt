-- ===== src/Conformance/Race.antt =====
-- `Compare` of internal/conformance/compare.go, with `compareSessions` and `compareConflictRace`: one case,
-- on one connection or on several at once.
use dsql_emulator.Prelude.{
  ℕ, suc, ◌-◌, false, not, ◌||◌, List, [], ◌∷◌, ◌++◌, length, is_nil, get_elem?, take, ◌==◌,
  if◌then◌else◌, Option, none, some, Text, lit, text_eq, itoa,
}
use dsql_emulator.Conformance.Data.{Observation, RecordedCase, Difference}
use dsql_emulator.Conformance.Compare.{compare_observations, if_differ, is_error}

abbrev pub or_no_steps : Option (List Text) → List Text
or_no_steps none = []
or_no_steps (some steps) = steps

-- The steps of a session, of the case as it is now.
abbrev pub steps_of : RecordedCase → ℕ → List Text
steps_of emulated i = or_no_steps (get_elem? emulated.probe.sessions i)

unfoldable pub compare_each :
    RecordedCase
    → RecordedCase
    → ℕ
    → List (List Observation)
    → List (List Observation)
    → List Difference
compare_each golden emulated i [] gots = []
compare_each golden emulated i (want ∷ wants) [] = []
compare_each golden emulated i (want ∷ wants) (got ∷ gots) =
    compare_observations golden emulated i (steps_of emulated i) want got
    ++ compare_each golden emulated (suc i) wants gots

-- The variables of `compareConflictRace`.
pub record Race : Type 0 where
  pub diffs : List Difference
  pub golden_lost : List Observation
  pub emulated_lost : List Observation

abbrev pub last : List Observation → Option Observation
last obs = get_elem? obs (length obs - 1)

abbrev pub all_but_last : List Observation → List Observation
all_but_last obs = take (length obs - 1) obs

abbrev pub if_error : Option Observation → List Observation
if_error none = []
if_error (some o) = if is_error o then o ∷ [] else []

-- The body of its loop.
unfoldable pub race_step :
    RecordedCase → RecordedCase → ℕ → List Observation → List Observation → Race → Race
race_step golden emulated i want got r =
    if not (length want == length got) || length want == 0
    then record r {
      diffs = r.diffs ++ compare_observations golden emulated i (steps_of emulated i) want got;
    }
    else record {
      diffs =
          r.diffs
          ++ compare_observations golden emulated i (steps_of emulated i) (all_but_last want)
              (all_but_last got);
      golden_lost = r.golden_lost ++ if_error (last want);
      emulated_lost = r.emulated_lost ++ if_error (last got);
    }

unfoldable pub race_steps :
    RecordedCase
    → RecordedCase
    → ℕ
    → List (List Observation)
    → List (List Observation)
    → Race
    → Race
unfolding race_step
race_steps golden emulated i [] gots r = r
race_steps golden emulated i (want ∷ wants) [] r = r
race_steps golden emulated i (want ∷ wants) (got ∷ gots) r =
    race_steps golden emulated (suc i) wants gots (race_step golden emulated i want got r)

-- Its closure `add`.
abbrev pub race_difference : RecordedCase → RecordedCase → Text → Text → Text → Difference
race_difference golden emulated field want got = record {
  name = golden.probe.name;
  session = 0;
  steps = [];
  step = 0;
  field = field;
  golden = want;
  emulator = got;
  advisory = false;
  known_gap = emulated.probe.known_gap;
}

-- The loop over the losers.
unfoldable pub compare_losers :
    RecordedCase → RecordedCase → List Observation → List Observation → List Difference
compare_losers golden emulated [] gots = []
compare_losers golden emulated (w ∷ ws) [] = []
compare_losers golden emulated (w ∷ ws) (g ∷ gs) =
    if_differ (not (text_eq w.sqlstate g.sqlstate))
      (race_difference golden emulated (lit "sqlstate") w.sqlstate g.sqlstate)
    ++ compare_losers golden emulated ws gs

abbrev pub race_verdict : RecordedCase → RecordedCase → Race → List Difference
unfolding compare_losers
race_verdict golden emulated r =
    let m = length r.golden_lost in
    let n = length r.emulated_lost in
    r.diffs
    ++ (if m == n
        then compare_losers golden emulated r.golden_lost r.emulated_lost
        else race_difference golden emulated (lit "conflict_losers") (itoa m) (itoa n) ∷ [])

unfoldable pub compare_conflict_race : RecordedCase → RecordedCase → List Difference
unfolding race_steps compare_losers
compare_conflict_race golden emulated = race_verdict golden emulated (
    race_steps golden emulated 0 golden.session_results emulated.session_results
      (record { diffs = []; golden_lost = []; emulated_lost = [] }))

abbrev pub session_count : RecordedCase → RecordedCase → Difference
session_count golden emulated = record {
  name = golden.probe.name;
  session = 0;
  steps = [];
  step = 0;
  field = lit "session_count";
  golden = itoa (length golden.session_results);
  emulator = itoa (length emulated.session_results);
  advisory = false;
  known_gap = [];
}

unfoldable pub compare_sessions : RecordedCase → RecordedCase → List Difference
unfolding compare_conflict_race compare_each
compare_sessions golden emulated =
    if not (length golden.session_results == length emulated.session_results)
    then session_count golden emulated ∷ []
    else if emulated.probe.conflict_race || golden.probe.conflict_race
    then compare_conflict_race golden emulated
    else compare_each golden emulated 0 golden.session_results emulated.session_results

-- `Compare`.
unfoldable pub compare : RecordedCase → RecordedCase → List Difference
unfolding compare_sessions
compare golden emulated =
    if not (is_nil golden.session_results) || not (is_nil emulated.session_results)
    then compare_sessions golden emulated
    else compare_observations golden emulated 0 emulated.probe.steps golden.observations
        emulated.observations
