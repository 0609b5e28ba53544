-- ===== src/Conformance/Unchanged.antt =====
-- A record whose content is unchanged against a comparison: `sameContent` and `Compare`.
use dsql_emulator.Prelude.{
  ◌≡◌, refl, ap, sym, ◌∙◌, subst, Bool, true, false, not, ◌&&◌, ◌||◌, List, [], ◌∷◌, map, length,
  is_nil, if◌then◌else◌, arith, Text, lit, text_eq, text_eq_refl, Bool-cases, inl, inr,
}
use dsql_emulator.Conformance.Data.{Case, Result, Observation, RecordedCase}
use dsql_emulator.Conformance.Tag.{is_row_count_tag}
use dsql_emulator.Conformance.Compare.{equal_strings, is_error, answer_of}
use dsql_emulator.Conformance.Content.{
  without_count, result_without_rows, observation_without_rows, without_rows, enforced_case,
}
use dsql_emulator.Conformance.Enforced.{
  answers_agree, results_agree, steps_agree, observations_agree,
}
use dsql_emulator.Conformance.Agreement.{sessions_agree, agrees}
use dsql_emulator.Conformance.Alike.{agrees_refl, equal_strings_refl}

unfoldable pub all_tagged : List Result → Bool
all_tagged [] = true
all_tagged (r ∷ rs) = not (is_nil r.command_tag) && all_tagged rs

-- A success has a tag: its own, or each of its results has one and itself none.
unfoldable pub is_tagged : Observation → Bool
unfolding all_tagged
is_tagged o =
    is_error o
    || (if is_nil o.results
        then not (is_nil o.command_tag)
        else is_nil o.command_tag && all_tagged o.results)

unfoldable pub are_tagged : List Observation → Bool
unfolding is_tagged
are_tagged [] = true
are_tagged (o ∷ os) = is_tagged o && are_tagged os

unfoldable pub sessions_tagged : List (List Observation) → Bool
unfolding are_tagged
sessions_tagged [] = true
sessions_tagged (s ∷ ss) = are_tagged s && sessions_tagged ss

abbrev pub case_tagged : RecordedCase → Bool
unfolding are_tagged sessions_tagged
case_tagged c = are_tagged c.observations && sessions_tagged c.session_results

tag_agrees :
    (s t : Text)
    → without_count s ≡ without_count t
    → is_nil s ≡ is_nil t
    → text_eq s t || is_row_count_tag s ≡ true
unfolding is_row_count_tag text_eq lit
tag_agrees [] [] h n = refl
tag_agrees [] (_ ∷ _) h n = ground arith
tag_agrees (_ ∷ _) [] h n = ground arith
tag_agrees (a ∷ s) (b ∷ t) h n = elim (Bool-cases (is_row_count_tag (a ∷ s))) [
  | inl p ↦ ground (arith, p)
  | inr p ↦ elim (Bool-cases (is_row_count_tag (b ∷ t))) [
    | inl q ↦ ground (arith, p, q, h)
    | inr q ↦
        let e : a ∷ s ≡ b ∷ t = ground (arith, p, q, h) in
        rw e (ground (arith, text_eq_refl (b ∷ t)))
  ]
]

result_agrees :
    (w g : Result)
    → result_without_rows w ≡ result_without_rows g
    → is_nil w.command_tag ≡ is_nil g.command_tag
    → answers_agree true w g ≡ true
unfolding answers_agree
result_agrees w g h n = ground (
  arith,
  tag_agrees w.command_tag g.command_tag (ap (λ (r : Result). r.command_tag) h) n,
  subst (λ (c : List Text). equal_strings w.columns c ≡ true) (ap (λ (r : Result). r.columns) h)
      (equal_strings_refl w.columns),
)

results_agree_lem :
    (ws gs : List Result)
    → map result_without_rows ws ≡ map result_without_rows gs
    → all_tagged ws ≡ true
    → all_tagged gs ≡ true
    → results_agree true ws gs ≡ true
unfolding results_agree all_tagged
results_agree_lem [] [] h p q = refl
results_agree_lem [] (g ∷ gs) h p q = cc
results_agree_lem (w ∷ ws) [] h p q = cc
results_agree_lem (w ∷ ws) (g ∷ gs) h p q =
    let e : result_without_rows w ≡ result_without_rows g = cc in
    let f : map result_without_rows ws ≡ map result_without_rows gs = cc in
    ground (arith, p, q, result_agrees w g e, results_agree_lem ws gs f)

is_nil-map :
    (ws gs : List Result)
    → map result_without_rows ws ≡ map result_without_rows gs
    → is_nil ws ≡ is_nil gs
is_nil-map [] [] h = refl
is_nil-map [] (g ∷ gs) h = cc
is_nil-map (w ∷ ws) [] h = cc
is_nil-map (w ∷ ws) (g ∷ gs) h = refl

step_agrees :
    (w g : Observation)
    → observation_without_rows w ≡ observation_without_rows g
    → is_tagged w ≡ true
    → is_tagged g ≡ true
    → steps_agree true w g ≡ true
unfolding steps_agree is_tagged
step_agrees w g h p q =
    let o : w.outcome ≡ g.outcome = ap (λ (x : Observation). x.outcome) h in
    let e : w.sqlstate ≡ g.sqlstate = ap (λ (x : Observation). x.sqlstate) h in
    let r : map result_without_rows w.results ≡ map result_without_rows g.results =
      ap (λ (x : Observation). x.results) h in
    let a : result_without_rows (answer_of w) ≡ result_without_rows (answer_of g) =
      ap answer_of h in
    ground (
      arith,
      text_eq_refl g.outcome,
      text_eq_refl g.sqlstate,
      o,
      e,
      p,
      q,
      is_nil-map w.results g.results r,
      result_agrees (answer_of w) (answer_of g) a,
      results_agree_lem w.results g.results r,
    )

observations_agree_lem :
    (ws gs : List Observation)
    → without_rows ws ≡ without_rows gs
    → are_tagged ws ≡ true
    → are_tagged gs ≡ true
    → observations_agree true ws gs ≡ true
unfolding observations_agree are_tagged without_rows
observations_agree_lem [] [] h p q = refl
observations_agree_lem [] (g ∷ gs) h p q = cc
observations_agree_lem (w ∷ ws) [] h p q = cc
observations_agree_lem (w ∷ ws) (g ∷ gs) h p q =
    let e : observation_without_rows w ≡ observation_without_rows g = cc in
    let f : map observation_without_rows ws ≡ map observation_without_rows gs = cc in
    ground (arith, p, q, step_agrees w g e, observations_agree_lem ws gs f)

-- Sessions that are equal without rows agree, and are as many.
sessions_agree_lem :
    (ws gs : List (List Observation))
    → map without_rows ws ≡ map without_rows gs
    → sessions_tagged ws ≡ true
    → sessions_tagged gs ≡ true
    → (sessions_agree true ws gs ≡ true) × (length ws ≡ length gs)
unfolding sessions_agree sessions_tagged
sessions_agree_lem [] [] h p q = (refl, refl)
sessions_agree_lem [] (g ∷ gs) h p q = cc
sessions_agree_lem (w ∷ ws) [] h p q = cc
sessions_agree_lem (w ∷ ws) (g ∷ gs) h p q =
    let e : without_rows w ≡ without_rows g = cc in
    let f : map without_rows ws ≡ map without_rows gs = cc in
    ground (arith, p, q, observations_agree_lem w g e, sessions_agree_lem ws gs f)

probe-enforced_case : (c : RecordedCase) → (enforced_case c).probe ≡ c.probe
unfolding enforced_case
probe-enforced_case c = ground arith

-- Two copies of a case that are enforced alike have one probe.
pub same_probe : (w g : RecordedCase) → enforced_case w ≡ enforced_case g → w.probe ≡ g.probe
same_probe w g h =
    sym (probe-enforced_case w) ∙ (ap (λ (c : RecordedCase). c.probe) h ∙ probe-enforced_case g)

agrees-without_rows :
    (w g : RecordedCase)
    → g.probe.ignore_rows ≡ true
    → g.probe.conflict_race ≡ false
    → w.probe ≡ g.probe
    → without_rows w.observations ≡ without_rows g.observations
    → map without_rows w.session_results ≡ map without_rows g.session_results
    → case_tagged w ≡ true
    → case_tagged g ≡ true
    → agrees w g ≡ true
unfolding agrees are_tagged sessions_tagged
agrees-without_rows w g i r same o s p q = ground (
  arith,
  i,
  r,
  ap (λ (c : Case). c.conflict_race) same,
  observations_agree_lem w.observations g.observations o,
  sessions_agree_lem w.session_results g.session_results s,
)

pub enforced_agrees :
    (w g : RecordedCase)
    → enforced_case w ≡ enforced_case g
    → g.probe.conflict_race ≡ false
    → case_tagged w ≡ true
    → case_tagged g ≡ true
    → agrees w g ≡ true
unfolding enforced_case
enforced_agrees w g h r p q = elim (Bool-cases g.probe.ignore_rows) [
  | inl i ↦
      let same = same_probe w g h in
      let wi : w.probe.ignore_rows ≡ true = ap (λ (c : Case). c.ignore_rows) same ∙ i in
      let wr : w.probe.conflict_race ≡ false = ap (λ (c : Case). c.conflict_race) same ∙ r in
      let o : without_rows w.observations ≡ without_rows g.observations =
        ground (arith, i, r, wi, wr, ap (λ (c : RecordedCase). c.observations) h) in
      let s : map without_rows w.session_results ≡ map without_rows g.session_results =
        ground (arith, i, r, wi, wr, ap (λ (c : RecordedCase). c.session_results) h) in
      agrees-without_rows w g i r same o s p q
  | inr i ↦
      let same = same_probe w g h in
      let e : w ≡ g = ground (
        arith,
        i,
        r,
        h,
        ap (λ (c : Case). c.ignore_rows) same,
        ap (λ (c : Case). c.conflict_race) same,
      ) in
      rw e (agrees_refl g)
]
