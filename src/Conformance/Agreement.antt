-- ===== src/Conformance/Agreement.antt =====
-- When a case has no failure: what `Compare` enforces of a case, said without the differences that it lists.
use dsql_emulator.Prelude.{
  ℕ, suc, ◌≡◌, refl, ap, sym, ◌∙◌, Bool, true, not, ◌&&◌, ◌||◌, List, [], ◌∷◌, ◌++◌, map, length,
  is_nil, ◌==◌, if◌then◌else◌, arith, Text, lit, itoa, append-nil, append_assoc,
}
use dsql_emulator.Conformance.Data.{Observation, RecordedCase}
use dsql_emulator.Conformance.Compare.{compare_observations, equal_strings}
use dsql_emulator.Conformance.Race.{
  steps_of, compare_each, Race, last, all_but_last, if_error, race_step, race_steps,
  race_difference, compare_losers, compare_conflict_race, compare_sessions, compare,
}
use dsql_emulator.Conformance.Suites.{failures}
use dsql_emulator.Conformance.Enforced.{
  observations_agree, is_clean, is_clean-append, is_excused, clean_observations,
}

-- Each session by itself.
unfoldable pub sessions_agree : Bool → List (List Observation) → List (List Observation) → Bool
sessions_agree ignore [] gots = true
sessions_agree ignore (want ∷ wants) [] = true
sessions_agree ignore (want ∷ wants) (got ∷ gots) =
    observations_agree ignore want got && sessions_agree ignore wants gots

-- In a race, the sessions without the steps at which it is decided; one that has as many steps on both
-- sides, and at least one, is played out.
abbrev pub is_played : List Observation → List Observation → Bool
is_played want got = (length want == length got) && not (length want == 0)

abbrev pub earlier : List Observation → List Observation → List Observation → List Observation
earlier want got obs = if is_played want got then all_but_last obs else obs

unfoldable pub earlier_agree : Bool → List (List Observation) → List (List Observation) → Bool
earlier_agree ignore [] gots = true
earlier_agree ignore (want ∷ wants) [] = true
earlier_agree ignore (want ∷ wants) (got ∷ gots) =
    observations_agree ignore (earlier want got want) (earlier want got got)
    && earlier_agree ignore wants gots

abbrev pub code : Observation → Text
code o = o.sqlstate

-- The SQLSTATEs that the transactions lost with, in the order of the sessions: as recorded, and as answered.
unfoldable pub recorded_codes : List (List Observation) → List (List Observation) → List Text
recorded_codes [] gots = []
recorded_codes (want ∷ wants) [] = []
recorded_codes (want ∷ wants) (got ∷ gots) =
    (if is_played want got then map code (if_error (last want)) else [])
    ++ recorded_codes wants gots

unfoldable pub answered_codes : List (List Observation) → List (List Observation) → List Text
answered_codes [] gots = []
answered_codes (want ∷ wants) [] = []
answered_codes (want ∷ wants) (got ∷ gots) =
    (if is_played want got then map code (if_error (last got)) else []) ++ answered_codes wants gots

-- What counts for a case: the number of its sessions always, and the rest where it has no known gap.
unfoldable pub agrees : RecordedCase → RecordedCase → Bool
unfolding observations_agree sessions_agree earlier_agree recorded_codes answered_codes
agrees golden emulated =
    let ignore = emulated.probe.ignore_rows in
    let wants = golden.session_results in
    let gots = emulated.session_results in
    (length wants == length gots)
    && (is_excused emulated
        || (if is_nil wants
            then observations_agree ignore golden.observations emulated.observations
            else if emulated.probe.conflict_race || golden.probe.conflict_race
            then earlier_agree ignore wants gots
              && equal_strings (recorded_codes wants gots) (answered_codes wants gots)
            else sessions_agree ignore wants gots))

module _ (golden emulated : RecordedCase) where
  clean_each :
      (i : ℕ) (wants gots : List (List Observation))
      → is_clean (compare_each golden emulated i wants gots)
        ≡ is_excused emulated || sessions_agree emulated.probe.ignore_rows wants gots
  unfolding compare_each sessions_agree failures
  clean_each i [] gots = ground arith
  clean_each i (want ∷ wants) [] = ground arith
  clean_each i (want ∷ wants) (got ∷ gots) =
      is_clean-append (compare_observations golden emulated i (steps_of emulated i) want got)
        (compare_each golden emulated (suc i) wants gots)
      ∙ ground (
        arith,
        clean_observations golden emulated i (steps_of emulated i) want got,
        clean_each (suc i) wants gots,
      )

  clean_race_step :
      (i : ℕ) (want got : List Observation) (r : Race)
      → is_clean (race_step golden emulated i want got r).diffs
        ≡ is_clean r.diffs
          && (is_excused emulated
              || observations_agree emulated.probe.ignore_rows
                  (earlier want got want)
                  (earlier want got got))
  unfolding race_step failures
  clean_race_step i want got r = ground (
    arith,
    is_clean-append r.diffs (compare_observations golden emulated i (steps_of emulated i) want got),
    is_clean-append r.diffs (
        compare_observations golden emulated i (steps_of emulated i) (all_but_last want)
          (all_but_last got)),
    clean_observations golden emulated i (steps_of emulated i) want got,
    clean_observations golden emulated i (steps_of emulated i) (all_but_last want)
        (all_but_last got),
  )

  clean_race_steps :
      (i : ℕ) (wants gots : List (List Observation)) (r : Race)
      → is_clean (race_steps golden emulated i wants gots r).diffs
        ≡ is_clean r.diffs
          && (is_excused emulated || earlier_agree emulated.probe.ignore_rows wants gots)
  unfolding race_steps earlier_agree failures
  clean_race_steps i [] gots r = ground arith
  clean_race_steps i (want ∷ wants) [] r = ground arith
  clean_race_steps i (want ∷ wants) (got ∷ gots) r =
      clean_race_steps (suc i) wants gots (race_step golden emulated i want got r)
      ∙ ground (arith, clean_race_step i want got r)

  map-append : (xs ys : List Observation) → map code (xs ++ ys) ≡ map code xs ++ map code ys
  map-append [] ys = refl
  map-append (x ∷ xs) ys = ap (λ t. x.sqlstate ∷ t) (map-append xs ys)

  lost_step :
      (i : ℕ) (want got : List Observation) (r : Race)
      → let s = race_step golden emulated i want got r in
        (map code s.golden_lost
          ≡ map code r.golden_lost
            ++ (if is_played want got then map code (if_error (last want)) else []))
        × (map code s.emulated_lost
            ≡ map code r.emulated_lost
              ++ (if is_played want got then map code (if_error (last got)) else []))
  unfolding race_step
  lost_step i want got r = ground (
    arith,
    map-append r.golden_lost (if_error (last want)),
    map-append r.emulated_lost (if_error (last got)),
    append-nil (map code r.golden_lost),
    append-nil (map code r.emulated_lost),
  )

  lost_steps :
      (i : ℕ) (wants gots : List (List Observation)) (r : Race)
      → let s = race_steps golden emulated i wants gots r in
        (map code s.golden_lost ≡ map code r.golden_lost ++ recorded_codes wants gots)
        × (map code s.emulated_lost ≡ map code r.emulated_lost ++ answered_codes wants gots)
  unfolding race_steps recorded_codes answered_codes
  lost_steps i [] gots r =
      (sym (append-nil (map code r.golden_lost)), sym (append-nil (map code r.emulated_lost)))
  lost_steps i (want ∷ wants) [] r =
      (sym (append-nil (map code r.golden_lost)), sym (append-nil (map code r.emulated_lost)))
  lost_steps i (want ∷ wants) (got ∷ gots) r =
      let (a, b) = lost_steps (suc i) wants gots (race_step golden emulated i want got r) in
      let (c, d) = lost_step i want got r in
      (
        a
            ∙ (ap (λ t. t ++ recorded_codes wants gots) c
                ∙ append_assoc (map code r.golden_lost) _ (recorded_codes wants gots)),
        b
            ∙ (ap (λ t. t ++ answered_codes wants gots) d
                ∙ append_assoc (map code r.emulated_lost) _ (answered_codes wants gots)),
      )

  clean_losers :
      (field want got : Text) (ws gs : List Observation)
      → is_clean (
          if length ws == length gs
          then compare_losers golden emulated ws gs
          else race_difference golden emulated field want got ∷ [])
        ≡ is_excused emulated || equal_strings (map code ws) (map code gs)
  unfolding compare_losers equal_strings failures
  clean_losers field want got [] [] = ground arith
  clean_losers field want got [] (g ∷ gs) = ground arith
  clean_losers field want got (w ∷ ws) [] = ground arith
  clean_losers field want got (w ∷ ws) (g ∷ gs) = ground (arith, clean_losers field want got ws gs)

  clean_race :
      is_clean (compare_conflict_race golden emulated)
      ≡ is_excused emulated
        || (earlier_agree emulated.probe.ignore_rows golden.session_results emulated.session_results
            && equal_strings
                (recorded_codes golden.session_results emulated.session_results)
                (answered_codes golden.session_results emulated.session_results))
  unfolding compare_conflict_race failures
  clean_race =
      let start : Race = record { diffs = []; golden_lost = []; emulated_lost = [] } in
      let wants = golden.session_results in
      let gots = emulated.session_results in
      let r = race_steps golden emulated 0 wants gots start in
      is_clean-append r.diffs (
        if length r.golden_lost == length r.emulated_lost
        then compare_losers golden emulated r.golden_lost r.emulated_lost
        else race_difference golden emulated (lit "conflict_losers") (itoa (length r.golden_lost))
            (itoa (length r.emulated_lost))
          ∷ [])
      ∙ ground (
        arith,
        clean_race_steps 0 wants gots start,
        lost_steps 0 wants gots start,
        clean_losers (lit "conflict_losers") (itoa (length r.golden_lost))
            (itoa (length r.emulated_lost)) r.golden_lost r.emulated_lost,
      )

-- A comparison of a case has no failure exactly when the case has as many sessions as were recorded and,
-- unless it has a known gap, its steps agree: outcomes, SQLSTATEs where one was recorded, and for successes
-- tags, columns and rows, rows and the tags that count them not where rows are ignored; of a race, the
-- steps before the last, and the SQLSTATEs of the losers in the order of their sessions.
pub is_clean-compare :
    (golden emulated : RecordedCase)
    → is_nil (failures (compare golden emulated)) ≡ agrees golden emulated
unfolding compare compare_sessions agrees failures
is_clean-compare golden emulated = ground (
  arith,
  clean_observations golden emulated 0 emulated.probe.steps golden.observations
      emulated.observations,
  clean_race golden emulated,
  clean_each golden emulated 0 golden.session_results emulated.session_results,
)
