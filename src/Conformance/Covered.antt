-- ===== src/Conformance/Covered.antt =====
-- Whole suites: `CompareSuites` and `Unrecorded`, and a record whose content is unchanged.
use dsql_emulator.Prelude.{
  ◌≡◌, refl, ap, ◌∙◌, Bool, true, false, not, ◌&&◌, List, [], ◌∷◌, map, is_nil, arith, Option, none,
  some, Text, text_eq_refl, contains, is_ascending, contains-sort_by, is_ascending-sort_by,
  text_eq_sound, All,
}
use dsql_emulator.Conformance.Data.{Case, RecordedCase, Golden}
use dsql_emulator.Conformance.Suites.{
  find_case, compare_with, compare_all, compare_suites, is_recorded, not_recorded, unrecorded,
  failures,
}
use dsql_emulator.Conformance.Content.{enforced_case, content}
use dsql_emulator.Conformance.Enforced.{is_clean, is_clean-append}
use dsql_emulator.Conformance.Agreement.{agrees, is_clean-compare}
use dsql_emulator.Conformance.Unchanged.{case_tagged, enforced_agrees, same_probe}

-- A recorded case is replayed and agrees, or it is not replayed and was only for the record.
abbrev pub is_covered : RecordedCase → Option RecordedCase → Bool
is_covered want none = want.probe.record_only
is_covered want (some got) = agrees want got

unfoldable pub all_covered : List RecordedCase → List RecordedCase → Bool
all_covered emulated [] = true
all_covered emulated (want ∷ wants) =
    is_covered want (find_case emulated want.probe.name) && all_covered emulated wants

clean_with :
    (want : RecordedCase) (got : Option RecordedCase)
    → is_clean (compare_with want got) ≡ is_covered want got
unfolding compare_with failures
clean_with want none = ground arith
clean_with want (some got) = is_clean-compare want got

clean_all :
    (emulated wants : List RecordedCase)
    → is_clean (compare_all emulated wants) ≡ all_covered emulated wants
unfolding compare_all all_covered failures
clean_all emulated [] = refl
clean_all emulated (want ∷ wants) =
    let got = find_case emulated want.probe.name in
    is_clean-append (compare_with want got) (compare_all emulated wants)
    ∙ ground (arith, clean_with want got, clean_all emulated wants)

-- A replay has no failure exactly when each recorded case is covered: the last case of its name that was
-- replayed agrees with it, or none was and the case was only for the record.
pub is_clean-compare_suites :
    (golden emulated : Golden)
    → is_nil (failures (compare_suites golden emulated)) ≡ all_covered emulated.cases golden.cases
unfolding compare_suites failures
is_clean-compare_suites golden emulated = clean_all emulated.cases golden.cases

-- No two cases with one name.
unfoldable pub are_distinct : List RecordedCase → Bool
are_distinct [] = true
are_distinct (c ∷ cases) = not (is_recorded cases c.probe.name) && are_distinct cases

unrecorded_not_found :
    (cases : List RecordedCase) (name : Text)
    → is_recorded cases name ≡ false
    → find_case cases name ≡ none
unfolding is_recorded find_case
unrecorded_not_found [] name h = refl
unrecorded_not_found (c ∷ cases) name h = ground (arith, unrecorded_not_found cases name)

-- Among `all`, each of these cases is found by its name.
abbrev Found : List RecordedCase → List RecordedCase → Type 0
Found all = All λ (c : RecordedCase). find_case all c.probe.name ≡ some c

Found-more :
    (c : RecordedCase) (all cases : List RecordedCase) → Found all cases → Found (c ∷ all) cases
unfolding find_case
Found-more c all [] f = tt
Found-more c all (d ∷ cases) (f, fs) = (ground (arith, f), Found-more c all cases fs)

distinct-Found : (cases : List RecordedCase) → are_distinct cases ≡ true → Found cases cases
unfolding are_distinct find_case
distinct-Found [] h = tt
distinct-Found (c ∷ cases) h = (
  ground (arith, h, unrecorded_not_found cases c.probe.name, text_eq_refl c.probe.name),
  Found-more c cases cases (distinct-Found cases (ground (arith, h))),
)

-- Cases that are no race, and whose successes have tags.
unfoldable pub are_plain : List RecordedCase → Bool
are_plain [] = true
are_plain (c ∷ cases) = not c.probe.conflict_race && case_tagged c && are_plain cases

covered_lem :
    (all wants gots : List RecordedCase)
    → map enforced_case wants ≡ map enforced_case gots
    → Found all gots
    → are_plain wants ≡ true
    → are_plain gots ≡ true
    → all_covered all wants ≡ true
unfolding all_covered are_plain
covered_lem all [] gots h f p q = refl
covered_lem all (w ∷ ws) [] h f p q = cc
covered_lem all (w ∷ ws) (g ∷ gs) h (f, fs) p q =
    let e : enforced_case w ≡ enforced_case g = cc in
    let t : map enforced_case ws ≡ map enforced_case gs = cc in
    let name : w.probe.name ≡ g.probe.name = ap (λ (c : Case). c.name) (same_probe w g e) in
    ground (arith, p, q, name, f, enforced_agrees w g e, covered_lem all ws gs t fs)

-- Where `contentBytes` makes of a replay and of the record one and the same value before it marshals it,
-- the replay has no failure against the record, if the names of the replayed cases differ, no case of
-- either is a race, and in both every success has a tag. Of the bytes that the value is marshalled to
-- nothing is stated.
pub content-compare_suites :
    (golden emulated : Golden)
    → content golden ≡ content emulated
    → are_distinct emulated.cases ≡ true
    → are_plain golden.cases ≡ true
    → are_plain emulated.cases ≡ true
    → failures (compare_suites golden emulated) ≡ []
unfolding content
content-compare_suites golden emulated h d p q = ground (
  arith,
  is_clean-compare_suites golden emulated,
  covered_lem emulated.cases golden.cases emulated.cases (ap (λ (g : Golden). g.cases) h)
      (distinct-Found emulated.cases d) p q,
)

-- The names of cases.
unfoldable pub names : List RecordedCase → List Text
names [] = []
names (c ∷ cases) = c.probe.name ∷ names cases

is_recorded-names :
    (cases : List RecordedCase) (n : Text) → is_recorded cases n ≡ contains (names cases) n
unfolding is_recorded names contains
is_recorded-names [] n = refl
is_recorded-names (c ∷ cases) n = ground (arith, is_recorded-names cases n)

contains-not_recorded :
    (recorded cases : List RecordedCase) (n : Text)
    → contains (not_recorded recorded cases) n
      ≡ contains (names cases) n && not (is_recorded recorded n)
unfolding not_recorded names contains
contains-not_recorded recorded [] n = refl
contains-not_recorded recorded (c ∷ cases) n = ground (
  arith,
  contains-not_recorded recorded cases n,
  ap (is_recorded recorded),
  text_eq_sound c.probe.name n,
)

-- The unrecorded cases are listed in ascending order, and a name is listed exactly when a case of that name
-- was replayed and none was recorded.
pub unrecorded_names :
    (golden emulated : Golden)
    → (is_ascending (unrecorded golden emulated) ≡ true)
      × ((n : Text)
          → contains (unrecorded golden emulated) n
            ≡ contains (names emulated.cases) n && not (contains (names golden.cases) n))
unfolding unrecorded
unrecorded_names golden emulated =
    let found = not_recorded golden.cases emulated.cases in
    (
      is_ascending-sort_by found,
      λ n.
          contains-sort_by found n
          ∙ (contains-not_recorded golden.cases emulated.cases n
              ∙ ap (λ b. contains (names emulated.cases) n && not b)
                  (is_recorded-names golden.cases n)),
    )
