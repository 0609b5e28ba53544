-- ===== src/Conformance/Content.antt =====
-- `enforcedCase` of internal/conformance/record.go, by which a record is compared with the one on disk.
use dsql_emulator.Prelude.{
  ◌-◌, Bool, List, [], ◌∷◌, ◌++◌, map, length, take, get_elem?, if◌then◌else◌, Option, none, some,
  Text, text_less, sort_by,
}
use dsql_emulator.Conformance.Data.{Result, Observation, RecordedCase, Golden}
use dsql_emulator.Conformance.Tag.{is_row_count_tag}

abbrev pub without_count : Text → Text
without_count tag = if is_row_count_tag tag then [] else tag

abbrev pub result_without_rows : Result → Result
result_without_rows r = record r { rows = []; command_tag = without_count r.command_tag }

abbrev pub observation_without_rows : Observation → Observation
observation_without_rows o = record o {
  rows = [];
  command_tag = without_count o.command_tag;
  results = map result_without_rows o.results;
}

unfoldable pub without_rows : List Observation → List Observation
without_rows = map observation_without_rows

unfoldable pub final_key : Observation → Text
final_key o = o.outcome ++ 0 ∷ o.sqlstate ++ 0 ∷ o.command_tag ++ 0 ∷ o.message

abbrev pub key_less : Observation → Observation → Bool
unfolding final_key
key_less a b = text_less (final_key a) (final_key b)

-- The sessions without their last steps.
unfoldable pub pooled : List (List Observation) → List (List Observation)
pooled [] = []
pooled (s ∷ sessions) = take (length s - 1) s ∷ pooled sessions

abbrev pub only : Option Observation → List Observation
only none = []
only (some o) = o ∷ []

-- Their last steps.
unfoldable pub finals : List (List Observation) → List Observation
finals [] = []
finals (s ∷ sessions) = only (get_elem? s (length s - 1)) ++ finals sessions

unfoldable pub with_conflict_finals_pooled : List (List Observation) → List (List Observation)
unfolding pooled finals final_key
with_conflict_finals_pooled sessions = pooled sessions ++ sort_by key_less (finals sessions) ∷ []

abbrev pub rows_ignored : RecordedCase → RecordedCase
unfolding without_rows
rows_ignored c =
    if c.probe.ignore_rows
    then record c {
      observations = without_rows c.observations;
      session_results = map without_rows c.session_results;
    }
    else c

abbrev pub race_pooled : RecordedCase → RecordedCase
unfolding with_conflict_finals_pooled
race_pooled c =
    if c.probe.conflict_race
    then record c { session_results = with_conflict_finals_pooled c.session_results }
    else c

unfoldable pub enforced_case : RecordedCase → RecordedCase
unfolding without_rows with_conflict_finals_pooled
enforced_case c = race_pooled (rows_ignored c)

-- The value of `content` in `contentBytes` when it is handed to json.Marshal, which is not modelled here: no
-- time, and each case as it is enforced.
unfoldable pub content : Golden → Golden
unfolding enforced_case
content golden = record golden { recorded_at = 0; cases = map enforced_case golden.cases }
