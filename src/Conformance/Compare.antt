-- ===== src/Conformance/Compare.antt =====
-- `compareObservations` of internal/conformance/compare.go: the observations of one connection, step by step.
use dsql_emulator.Prelude.{
  ℕ, suc, Bool, true, false, not, ◌&&◌, List, [], ◌∷◌, ◌++◌, length, is_nil, ◌==◌, if◌then◌else◌,
  Text, lit, text_eq, itoa,
}
use dsql_emulator.Conformance.Data.{Result, Observation, RecordedCase, Difference}
use dsql_emulator.Conformance.Json.{rows, join}
use dsql_emulator.Conformance.Tag.{is_row_count_tag}

-- The closure `add`: a difference from its step, its field, what was recorded, what was answered, and
-- whether it is advisory.
abbrev pub Add : Type 0
Add = ℕ → Text → Text → Text → Bool → Difference

abbrev pub add_of : RecordedCase → RecordedCase → ℕ → List Text → Add
add_of golden emulated session steps i field want got advisory = record {
  name = golden.probe.name;
  session = session;
  steps = steps;
  step = i;
  field = field;
  golden = want;
  emulator = got;
  advisory = advisory;
  known_gap = emulated.probe.known_gap;
}

abbrev pub if_differ : Bool → Difference → List Difference
if_differ true d = d ∷ []
if_differ false d = []

unfoldable pub equal_strings : List Text → List Text → Bool
equal_strings [] [] = true
equal_strings [] (_ ∷ _) = false
equal_strings (_ ∷ _) [] = false
equal_strings (a ∷ s) (b ∷ t) = text_eq a b && equal_strings s t

abbrev pub is_error : Observation → Bool
is_error o = text_eq o.outcome (lit "error")

abbrev pub brief : Observation → Text
brief o =
    if is_error o
    then lit "error " ++ o.sqlstate ++ lit " " ++ o.message
    else lit "ok " ++ o.command_tag

-- The tag, columns and rows of one answer, each with the name of its field.
unfoldable pub compare_answer : Add → Bool → ℕ → (Text → Text) → Result → Result → List Difference
compare_answer add ignore i field w g =
    if_differ
      (not (text_eq w.command_tag g.command_tag) && not (ignore && is_row_count_tag w.command_tag))
      (add i (field (lit "command_tag")) w.command_tag g.command_tag false)
    ++ if_differ (not (equal_strings w.columns g.columns))
        (add i (field (lit "columns")) (join w.columns) (join g.columns) false)
    ++ if_differ (not ignore && not (text_eq (rows w.rows) (rows g.rows)))
        (add i (field (lit "rows")) (rows w.rows) (rows g.rows) false)

abbrev pub field_of : ℕ → Text → Text
field_of n name = lit "result " ++ itoa n ++ lit " " ++ name

-- The loop over the answers of a step that sent several statements, from the `n`-th on.
unfoldable pub compare_results : Add → Bool → ℕ → ℕ → List Result → List Result → List Difference
compare_results add ignore i n [] gs = []
compare_results add ignore i n (w ∷ ws) [] = []
compare_results add ignore i n (w ∷ ws) (g ∷ gs) =
    compare_answer add ignore i (field_of n) w g ++ compare_results add ignore i (suc n) ws gs

abbrev pub answer_of : Observation → Result
answer_of o = record { command_tag = o.command_tag; columns = o.columns; rows = o.rows }

-- What the loop does for a step that failed on both sides.
unfoldable pub compare_errors : Add → ℕ → Observation → Observation → List Difference
compare_errors add i w g =
    if_differ (not (is_nil w.sqlstate) && not (text_eq w.sqlstate g.sqlstate))
      (add i (lit "sqlstate") w.sqlstate g.sqlstate false)
    ++ if_differ (not (text_eq w.message g.message))
        (add i (lit "message") w.message g.message true)

-- What it does for a step that succeeded on both.
unfoldable pub compare_successes : Add → Bool → ℕ → Observation → Observation → List Difference
unfolding compare_answer compare_results
compare_successes add ignore i w g =
    compare_answer add ignore i (λ name. name) (answer_of w) (answer_of g)
    ++ (if length w.results == length g.results
        then compare_results add ignore i 0 w.results g.results
        else add i (lit "result_count") (itoa (length w.results)) (itoa (length g.results)) false
          ∷ [])

-- The body of the loop over the steps.
unfoldable pub compare_step : Add → Bool → ℕ → Observation → Observation → List Difference
unfolding compare_errors compare_successes
compare_step add ignore i w g =
    if not (text_eq w.outcome g.outcome)
    then add i (lit "outcome") w.outcome g.outcome false
      ∷ add i (lit "detail") (brief w) (brief g) true
      ∷ []
    else if is_error w
    then compare_errors add i w g
    else compare_successes add ignore i w g

unfoldable pub compare_steps :
    Add → Bool → ℕ → List Observation → List Observation → List Difference
unfolding compare_step
compare_steps add ignore i [] gs = []
compare_steps add ignore i (w ∷ ws) [] = []
compare_steps add ignore i (w ∷ ws) (g ∷ gs) =
    compare_step add ignore i w g ++ compare_steps add ignore (suc i) ws gs

unfoldable pub compare_observations :
    RecordedCase
    → RecordedCase
    → ℕ
    → List Text
    → List Observation
    → List Observation
    → List Difference
unfolding compare_steps
compare_observations golden emulated session steps want got =
    let add = add_of golden emulated session steps in
    if length want == length got
    then compare_steps add emulated.probe.ignore_rows 0 want got
    else add 0 (lit "step_count") (itoa (length want)) (itoa (length got)) false ∷ []
