-- ===== src/Conformance/Complete.antt =====
-- What a run of a suite leaves behind, and what a run without an error has done.
use dsql_emulator.Prelude.{
  ◌≡◌, refl, ap, ◌∙◌, subst, Bool, true, List, [], ◌++◌, ◌∷◌, map, arith, none, some, Text, inl,
  inr, Option-cases,
}
use dsql_emulator.Conformance.Data.{Golden}
use dsql_emulator.Conformance.Run.{
  Suite, Call, ask_version, script, Target, in_setup, in_verify, in_survival, run_script, Run,
  run_cases, survive, run_body, golden_of, Outcome, run_suite,
}
use dsql_emulator.Conformance.Ran.{
  run_cleanup-append, taken, probe_of, all_observed, run_cases-IsLooped, run_script-calls,
}

pub run_suite-cleanup :
    (t : Target) (s : Suite) (include : Bool)
    → t.connects ≡ none
    → (run_suite t s include).calls ≡ (run_body t s include).calls ++ map script s.cleanup
unfolding run_suite
run_suite-cleanup t s include c =
    ground (arith, c, run_cleanup-append t s.cleanup (run_body t s include).calls)

-- A run without an error: the calls are the query for the version, the setup, the verification of the
-- schema, what the cases ask, the verification once more and the cleanup; and each case that is taken up
-- is recorded, in the suite's order, with an observation for each of its steps where it has one
-- connection.
pub record IsComplete (s : Suite) (include : Bool) (o : Outcome) : Type 0 where
  pub golden : Golden
  pub returned : o.golden ≡ some golden
  pub probes : map probe_of golden.cases ≡ taken include s.cases
  pub observed : all_observed golden.cases ≡ true
  pub asked : List Call
  pub verified_twice :
      o.calls
      ≡ ((((ask_version ∷ map script s.setup) ++ map script s.verify) ++ asked)
          ++ map script s.verify)
        ++ map script s.cleanup

-- What the body does, where it raises no error.
record IsBody (s : Suite) (include : Bool) (r : Run) : Type 0 where
  probes : map probe_of r.recorded ≡ taken include s.cases
  observed : all_observed r.recorded ≡ true
  asked : List Call
  calls_are :
      r.calls
      ≡ (((ask_version ∷ map script s.setup) ++ map script s.verify) ++ asked)
        ++ map script s.verify

survive-error :
    (t : Target) (verify : List Text) (r : Run) → (survive t verify r).error ≡ none → r.error ≡ none
unfolding survive
survive-error t verify r e = ground (arith, Option-cases r.error)

survive-calls :
    (t : Target) (verify : List Text) (r : Run)
    → (survive t verify r).error ≡ none
    → ((survive t verify r).calls ≡ r.calls ++ map script verify)
      × ((survive t verify r).recorded ≡ r.recorded)
unfolding survive
survive-calls t verify r e =
    ground (arith, Option-cases r.error, run_script-calls t in_survival verify r.calls)

run_body-IsBody :
    (t : Target) (s : Suite) (include : Bool)
    → (run_body t s include).error ≡ none
    → IsBody s include (run_body t s include)
unfolding run_body all_observed
run_body-IsBody t s include e =
    let a = run_script t in_setup s.setup (ask_version ∷ []) in
    let b = run_script t in_verify s.verify a.0 in
    elim (Option-cases a.1) [
      | inr (f, p) ↦ ground (arith, p, e)
      | inl p ↦ elim (Option-cases b.1) [
        | inr (f, q) ↦ ground (arith, p, q, e)
        | inl q ↦
            let r = run_cases t include s.cases b.0 [] in
            let same : survive t s.verify r ≡ run_body t s include = ground (arith, p, q) in
            let fine : (survive t s.verify r).error ≡ none = ap (λ (x : Run). x.error) same ∙ e in
            let loop =
              run_cases-IsLooped t include s.cases b.0 [] refl (survive-error t s.verify r fine) in
            let (calls, recorded) = survive-calls t s.verify r fine in
            let set_up : a.0 ≡ ask_version ∷ map script s.setup =
              run_script-calls t in_setup s.setup (ask_version ∷ []) p in
            let verified : b.0 ≡ a.0 ++ map script s.verify =
              run_script-calls t in_verify s.verify a.0 q in
            subst (IsBody s include) same (record {
              probes = ap (map probe_of) recorded ∙ loop.probes;
              observed = ap all_observed recorded ∙ loop.observed;
              asked = loop.after.0;
              calls_are = ground (arith, calls, loop.after.1, verified, set_up);
            })
      ]
    ]

-- A run that returns no error returns a record of each case that it takes up, in the order of the suite
-- and for a case of one connection with an observation for each step; and what was asked of the target
-- begins with the query for the version, the setup and the verification of the schema and ends with the
-- verification once more and the cleanup.
pub run_suite-IsComplete :
    (t : Target) (s : Suite) (include : Bool)
    → (run_suite t s include).error ≡ none
    → IsComplete s include (run_suite t s include)
unfolding run_suite
run_suite-IsComplete t s include e = elim (Option-cases t.connects) [
  | inr (f, p) ↦ ground (arith, p, e)
  | inl p ↦
      let r = run_body t s include in
      let body = run_body-IsBody t s include (ground (arith, p, e)) in
      record {
        golden = golden_of t s r.recorded;
        returned = ground (arith, p);
        probes = body.probes;
        observed = body.observed;
        asked = body.asked;
        verified_twice =
            run_suite-cleanup t s include p ∙ ap (λ x. x ++ map script s.cleanup) body.calls_are;
      }
]
