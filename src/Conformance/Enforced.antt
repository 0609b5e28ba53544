-- ===== src/Conformance/Enforced.antt =====
-- What a comparison of observations enforces, said without the differences that it lists.
use dsql_emulator.Prelude.{
  ℕ, suc, ◌≡◌, refl, ◌∙◌, Bool, true, false, not, ◌&&◌, ◌||◌, List, [], ◌∷◌, ◌++◌, length, is_nil,
  ◌==◌, if◌then◌else◌, arith, Text, lit, text_eq, itoa,
}
use dsql_emulator.Conformance.Data.{Result, Observation, RecordedCase, Difference}
use dsql_emulator.Conformance.Json.{rows}
use dsql_emulator.Conformance.Tag.{is_row_count_tag}
use dsql_emulator.Conformance.Compare.{
  add_of, equal_strings, is_error, compare_answer, field_of, compare_results, answer_of,
  compare_errors, compare_successes, compare_step, compare_steps, compare_observations,
}
use dsql_emulator.Conformance.Suites.{failures}

-- Rows that are ignored may differ, and so may a tag that only counts them.
unfoldable pub answers_agree : Bool → Result → Result → Bool
answers_agree ignore w g =
    (text_eq w.command_tag g.command_tag || (ignore && is_row_count_tag w.command_tag))
    && equal_strings w.columns g.columns
    && (ignore || text_eq (rows w.rows) (rows g.rows))

unfoldable pub results_agree : Bool → List Result → List Result → Bool
unfolding answers_agree
results_agree ignore [] [] = true
results_agree ignore [] (_ ∷ _) = false
results_agree ignore (_ ∷ _) [] = false
results_agree ignore (w ∷ ws) (g ∷ gs) = answers_agree ignore w g && results_agree ignore ws gs

-- Of two errors the SQLSTATE counts, where one was recorded, and never the message.
unfoldable pub steps_agree : Bool → Observation → Observation → Bool
unfolding answers_agree results_agree
steps_agree ignore w g =
    text_eq w.outcome g.outcome
    && (if is_error w
        then is_nil w.sqlstate || text_eq w.sqlstate g.sqlstate
        else answers_agree ignore (answer_of w) (answer_of g)
          && results_agree ignore w.results g.results)

unfoldable pub observations_agree : Bool → List Observation → List Observation → Bool
unfolding steps_agree
observations_agree ignore [] [] = true
observations_agree ignore [] (_ ∷ _) = false
observations_agree ignore (_ ∷ _) [] = false
observations_agree ignore (w ∷ ws) (g ∷ gs) =
    steps_agree ignore w g && observations_agree ignore ws gs

abbrev pub is_clean : List Difference → Bool
unfolding failures
is_clean diffs = is_nil (failures diffs)

pub is_clean-append : (xs ys : List Difference) → is_clean (xs ++ ys) ≡ is_clean xs && is_clean ys
unfolding failures
is_clean-append [] ys = refl
is_clean-append (x ∷ xs) ys = ground (arith, is_clean-append xs ys)

-- A known gap excuses every difference of its case.
abbrev pub is_excused : RecordedCase → Bool
is_excused emulated = not (is_nil emulated.probe.known_gap)

module _ (golden emulated : RecordedCase) (session : ℕ) (steps : List Text) (ignore : Bool) where
  clean_answer :
      (i : ℕ) (field : Text → Text) (w g : Result)
      → is_clean (compare_answer (add_of golden emulated session steps) ignore i field w g)
        ≡ is_excused emulated || answers_agree ignore w g
  unfolding compare_answer answers_agree failures
  clean_answer i field w g = ground arith

  clean_results :
      (i n : ℕ) (ws gs : List Result)
      → (length ws == length gs) ≡ true
      → is_clean (compare_results (add_of golden emulated session steps) ignore i n ws gs)
        ≡ is_excused emulated || results_agree ignore ws gs
  unfolding compare_results results_agree failures
  clean_results i n [] [] h = ground arith
  clean_results i n [] (g ∷ gs) h = ground arith
  clean_results i n (w ∷ ws) [] h = ground arith
  clean_results i n (w ∷ ws) (g ∷ gs) h =
      let add = add_of golden emulated session steps in
      is_clean-append (compare_answer add ignore i (field_of n) w g)
        (compare_results add ignore i (suc n) ws gs)
      ∙ ground (arith, clean_answer i (field_of n) w g, clean_results i (suc n) ws gs)

  results_agree-length :
      (ws gs : List Result) → (length ws == length gs) ≡ false → results_agree ignore ws gs ≡ false
  unfolding results_agree
  results_agree-length [] [] h = ground arith
  results_agree-length [] (g ∷ gs) h = refl
  results_agree-length (w ∷ ws) [] h = refl
  results_agree-length (w ∷ ws) (g ∷ gs) h = ground (arith, results_agree-length ws gs)

  clean_successes :
      (i : ℕ) (w g : Observation)
      → is_clean (compare_successes (add_of golden emulated session steps) ignore i w g)
        ≡ is_excused emulated
          || (answers_agree ignore (answer_of w) (answer_of g)
              && results_agree ignore w.results g.results)
  unfolding compare_successes failures
  clean_successes i w g =
      let add = add_of golden emulated session steps in
      is_clean-append (compare_answer add ignore i (λ name. name) (answer_of w) (answer_of g)) (
        if length w.results == length g.results
        then compare_results add ignore i 0 w.results g.results
        else add i (lit "result_count") (itoa (length w.results)) (itoa (length g.results)) false
          ∷ [])
      ∙ ground (
        arith,
        clean_answer i (λ name. name) (answer_of w) (answer_of g),
        clean_results i 0 w.results g.results,
        results_agree-length w.results g.results,
      )

  clean_step :
      (i : ℕ) (w g : Observation)
      → is_clean (compare_step (add_of golden emulated session steps) ignore i w g)
        ≡ is_excused emulated || steps_agree ignore w g
  unfolding compare_step compare_errors steps_agree failures
  clean_step i w g = ground (arith, clean_successes i w g)

  clean_steps :
      (i : ℕ) (ws gs : List Observation)
      → (length ws == length gs) ≡ true
      → is_clean (compare_steps (add_of golden emulated session steps) ignore i ws gs)
        ≡ is_excused emulated || observations_agree ignore ws gs
  unfolding compare_steps observations_agree failures
  clean_steps i [] [] h = ground arith
  clean_steps i [] (g ∷ gs) h = ground arith
  clean_steps i (w ∷ ws) [] h = ground arith
  clean_steps i (w ∷ ws) (g ∷ gs) h =
      let add = add_of golden emulated session steps in
      is_clean-append (compare_step add ignore i w g) (compare_steps add ignore (suc i) ws gs)
      ∙ ground (arith, clean_step i w g, clean_steps (suc i) ws gs)

  observations_agree-length :
      (ws gs : List Observation)
      → (length ws == length gs) ≡ false
      → observations_agree ignore ws gs ≡ false
  unfolding observations_agree
  observations_agree-length [] [] h = ground arith
  observations_agree-length [] (g ∷ gs) h = refl
  observations_agree-length (w ∷ ws) [] h = refl
  observations_agree-length (w ∷ ws) (g ∷ gs) h = ground (arith, observations_agree-length ws gs)

pub clean_observations :
    (golden emulated : RecordedCase) (session : ℕ) (steps : List Text) (want got : List Observation)
    → is_clean (compare_observations golden emulated session steps want got)
      ≡ is_excused emulated || observations_agree emulated.probe.ignore_rows want got
unfolding compare_observations failures
clean_observations golden emulated session steps want got =
    let ignore = emulated.probe.ignore_rows in
    ground (
      arith,
      clean_steps golden emulated session steps ignore 0 want got,
      observations_agree-length golden emulated session steps ignore want got,
    )
