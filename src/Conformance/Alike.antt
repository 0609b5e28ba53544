-- ===== src/Conformance/Alike.antt =====
-- A case agrees with itself.
use dsql_emulator.Prelude.{◌≡◌, refl, Bool, true, List, [], ◌∷◌, arith, Text, text_eq_refl}
use dsql_emulator.Conformance.Data.{Result, Observation, RecordedCase}
use dsql_emulator.Conformance.Json.{rows}
use dsql_emulator.Conformance.Compare.{equal_strings, answer_of}
use dsql_emulator.Conformance.Enforced.{
  answers_agree, results_agree, steps_agree, observations_agree,
}
use dsql_emulator.Conformance.Agreement.{
  sessions_agree, earlier_agree, recorded_codes, answered_codes, earlier, agrees,
}

pub equal_strings_refl : (s : List Text) → equal_strings s s ≡ true
unfolding equal_strings
equal_strings_refl [] = refl
equal_strings_refl (a ∷ s) = ground (arith, text_eq_refl a, equal_strings_refl s)

answers_agree_refl : (ignore : Bool) (w : Result) → answers_agree ignore w w ≡ true
unfolding answers_agree
answers_agree_refl ignore w =
    ground
      (arith, text_eq_refl w.command_tag, equal_strings_refl w.columns, text_eq_refl (rows w.rows))

results_agree_refl : (ignore : Bool) (ws : List Result) → results_agree ignore ws ws ≡ true
unfolding results_agree
results_agree_refl ignore [] = refl
results_agree_refl ignore (w ∷ ws) =
    ground (arith, answers_agree_refl ignore w, results_agree_refl ignore ws)

pub steps_agree_refl : (ignore : Bool) (w : Observation) → steps_agree ignore w w ≡ true
unfolding steps_agree
steps_agree_refl ignore w = ground (
  arith,
  text_eq_refl w.outcome,
  text_eq_refl w.sqlstate,
  answers_agree_refl ignore (answer_of w),
  results_agree_refl ignore w.results,
)

observations_agree_refl :
    (ignore : Bool) (ws : List Observation) → observations_agree ignore ws ws ≡ true
unfolding observations_agree
observations_agree_refl ignore [] = refl
observations_agree_refl ignore (w ∷ ws) =
    ground (arith, steps_agree_refl ignore w, observations_agree_refl ignore ws)

sessions_agree_refl :
    (ignore : Bool) (ws : List (List Observation)) → sessions_agree ignore ws ws ≡ true
unfolding sessions_agree
sessions_agree_refl ignore [] = refl
sessions_agree_refl ignore (w ∷ ws) =
    ground (arith, observations_agree_refl ignore w, sessions_agree_refl ignore ws)

earlier_agree_refl :
    (ignore : Bool) (ws : List (List Observation)) → earlier_agree ignore ws ws ≡ true
unfolding earlier_agree
earlier_agree_refl ignore [] = refl
earlier_agree_refl ignore (w ∷ ws) =
    ground (arith, observations_agree_refl ignore (earlier w w w), earlier_agree_refl ignore ws)

codes_same : (ws : List (List Observation)) → recorded_codes ws ws ≡ answered_codes ws ws
unfolding recorded_codes answered_codes
codes_same [] = refl
codes_same (w ∷ ws) = ground (arith, codes_same ws)

pub agrees_refl : (c : RecordedCase) → agrees c c ≡ true
unfolding agrees
agrees_refl c =
    let ignore = c.probe.ignore_rows in
    let ws = c.session_results in
    ground (
      arith,
      observations_agree_refl ignore c.observations,
      sessions_agree_refl ignore ws,
      earlier_agree_refl ignore ws,
      codes_same ws,
      equal_strings_refl (answered_codes ws ws),
    )
