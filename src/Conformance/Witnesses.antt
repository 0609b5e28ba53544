-- ===== src/Conformance/Witnesses.antt =====
-- The theorems on the conformance records, at the records of Sample.
use dsql_emulator.Prelude.{
  ◌≡◌, refl, true, false, [], ◌∷◌, is_nil, none, Text, lit, text_eq, starts_with, sort_by,
  insert_by, text_less,
}
use dsql_emulator.Conformance.Data.{Golden, RecordedCase}
use dsql_emulator.Conformance.Race.{compare}
use dsql_emulator.Conformance.Suites.{failures, compare_suites, is_recorded}
use dsql_emulator.Conformance.Content.{
  content, enforced_case, without_rows, with_conflict_finals_pooled, pooled, finals, final_key,
}
use dsql_emulator.Conformance.Tag.{is_row_count_tag, is_number, all_digits, value}
use dsql_emulator.Conformance.Json.{rows}
use dsql_emulator.Conformance.Compare.{equal_strings}
use dsql_emulator.Conformance.Enforced.{
  observations_agree, steps_agree, answers_agree, results_agree,
}
use dsql_emulator.Conformance.Unchanged.{are_tagged, sessions_tagged, is_tagged, all_tagged}
use dsql_emulator.Conformance.Agreement.{
  agrees, earlier_agree, recorded_codes, answered_codes, is_clean-compare,
}
use dsql_emulator.Conformance.Covered.{are_distinct, are_plain, content-compare_suites}
use dsql_emulator.Conformance.Observe.{
  exec_retrying_conflicts, retrying, is_serialization_failure, answered,
}
use dsql_emulator.Conformance.Retries.{Ends, exec_retrying_conflicts-Ends}
use dsql_emulator.Conformance.Run.{
  run_script, run_steps, run_case, run_cases, survive, run_body, run_suite,
}
use dsql_emulator.Conformance.Complete.{IsComplete, run_suite-IsComplete}
use dsql_emulator.Conformance.Files.{save_dir}
use dsql_emulator.Conformance.NotEmpty.{save_dir_not_empty}
use dsql_emulator.Conformance.Sample.{
  full_disk, saved_before, target_with, small_suite, golden_at, race_of, committed, lost,
  third_time, never_cut,
}

abbrev yesterday : Golden
yesterday = golden_at 1 (lit "SELECT 1") ((lit "a" ∷ []) ∷ [])

abbrev today : Golden
today = golden_at 2 (lit "SELECT 2") ((lit "b" ∷ []) ∷ (lit "c" ∷ []) ∷ [])

same_content : content yesterday ≡ content today
unfolding content enforced_case without_rows is_row_count_tag is_number all_digits value starts_with
    lit text_eq
same_content = refl

names_differ : are_distinct today.cases ≡ true
unfolding are_distinct is_recorded text_eq lit
names_differ = refl

yesterday_plain : are_plain yesterday.cases ≡ true
unfolding are_plain are_tagged sessions_tagged is_tagged all_tagged text_eq lit
yesterday_plain = refl

today_plain : are_plain today.cases ≡ true
unfolding are_plain are_tagged sessions_tagged is_tagged all_tagged text_eq lit
today_plain = refl

content-compare_suites_example : failures (compare_suites yesterday today) ≡ []
content-compare_suites_example =
    content-compare_suites yesterday today same_content names_differ yesterday_plain today_plain

abbrev first_lost : Text → RecordedCase
first_lost code = race_of (lost code) committed

abbrev second_lost : Text → RecordedCase
second_lost code = race_of committed (lost code)

is_clean-compare_example :
    is_nil (failures (compare (first_lost (lit "40001")) (second_lost (lit "40001"))))
    ≡ agrees (first_lost (lit "40001")) (second_lost (lit "40001"))
is_clean-compare_example = is_clean-compare (first_lost (lit "40001")) (second_lost (lit "40001"))

-- Which of two transactions lost is not enforced, but the SQLSTATE is.
race_tests :
    (agrees (first_lost (lit "40001")) (second_lost (lit "40001")) ≡ true)
    × (agrees (first_lost (lit "40001")) (second_lost (lit "OC000")) ≡ false)
unfolding agrees earlier_agree observations_agree steps_agree answers_agree results_agree
    recorded_codes answered_codes equal_strings rows text_eq lit
race_tests = (refl, refl)

-- Both sessions lost, with SQLSTATEs that are swapped: a failure, although the contents are equal.
abbrev lost_with : Text → Text → RecordedCase
lost_with a b = race_of (lost a) (lost b)

swapped_codes :
    (agrees (lost_with (lit "40001") (lit "OC000")) (lost_with (lit "OC000") (lit "40001")) ≡ false)
    × (enforced_case (lost_with (lit "40001") (lit "OC000"))
        ≡ enforced_case (lost_with (lit "OC000") (lit "40001")))
unfolding agrees earlier_agree observations_agree steps_agree answers_agree results_agree
    recorded_codes answered_codes equal_strings rows enforced_case with_conflict_finals_pooled
    pooled finals final_key sort_by insert_by text_less text_eq lit
swapped_codes = (refl, refl)

exec_retrying_conflicts-Ends_example :
    Ends third_time never_cut (exec_retrying_conflicts third_time never_cut)
exec_retrying_conflicts-Ends_example = exec_retrying_conflicts-Ends third_time never_cut

third_time_test : exec_retrying_conflicts third_time never_cut ≡ none
unfolding exec_retrying_conflicts retrying is_serialization_failure text_eq lit
third_time_test = refl

runs : (run_suite (target_with none) small_suite false).error ≡ none
unfolding run_suite run_body run_script run_cases run_case run_steps survive exec_retrying_conflicts
    retrying answered text_eq lit
runs = refl

run_suite-IsComplete_example :
    IsComplete small_suite false (run_suite (target_with none) small_suite false)
run_suite-IsComplete_example = run_suite-IsComplete (target_with none) small_suite false runs

save_dir_not_empty_example : is_nil (save_dir full_disk saved_before yesterday).0 ≡ false
save_dir_not_empty_example = save_dir_not_empty full_disk saved_before yesterday refl
