-- ===== src/Conformance/Ran.antt =====
-- The loops of a run: what each asks of the target and what it records.
use dsql_emulator.Prelude.{
  ◌+◌, ◌≡◌, refl, ap, sym, ◌∙◌, Bool, true, not, ◌&&◌, ◌||◌, List, [], ◌∷◌, ◌++◌, map, length,
  is_nil, ◌==◌, if◌then◌else◌, arith, none, Text, ◌⊎◌, inl, inr, Bool-cases, Option-cases,
  append-nil, append_assoc,
}
use dsql_emulator.Conformance.Data.{Case, Observation, RecordedCase}
use dsql_emulator.Conformance.Observe.{Failure, answered}
use dsql_emulator.Conformance.Run.{
  Call, script, step, reset, race, Target, RunError, exec_script, run_script, run_cleanup,
  run_steps, steps_recorded, sessions_recorded, run_case, Run, run_cases,
}

pub run_cleanup-append :
    (t : Target) (sqls : List Text) (calls : List Call)
    → run_cleanup t sqls calls ≡ calls ++ map script sqls
unfolding run_cleanup
run_cleanup-append t [] calls = sym (append-nil calls)
run_cleanup-append t (sql ∷ rest) calls =
    let next =
      run_cleanup-append t rest (calls ++ script sql ∷ [])
      ∙ append_assoc calls (script sql ∷ []) (map script rest) in
    elim (Option-cases (exec_script t calls sql)) [
      | inl p ↦ rw (p, run_cleanup) next
      | inr (f, p) ↦ rw (p, run_cleanup) next
    ]

-- The cases that a run takes up.
unfoldable pub taken : Bool → List Case → List Case
taken include [] = []
taken include (c ∷ cases) =
    let rest = taken include cases in if c.record_only && not include then rest else c ∷ rest

abbrev pub probe_of : RecordedCase → Case
probe_of r = r.probe

-- A case of one connection has an observation for each of its steps.
unfoldable pub all_observed : List RecordedCase → Bool
all_observed [] = true
all_observed (r ∷ rs) =
    (not (is_nil r.probe.sessions) || (length r.observations == length r.probe.steps))
    && all_observed rs

all_observed-append :
    (xs ys : List RecordedCase) → all_observed (xs ++ ys) ≡ all_observed xs && all_observed ys
unfolding all_observed
all_observed-append [] ys = refl
all_observed-append (x ∷ xs) ys = ground (arith, all_observed-append xs ys)

map-append :
    (xs ys : List RecordedCase) → map probe_of (xs ++ ys) ≡ map probe_of xs ++ map probe_of ys
map-append [] ys = refl
map-append (x ∷ xs) ys = ap (λ t. x.probe ∷ t) (map-append xs ys)

length-snoc : {A : Type 0} (xs : List A) (x : A) → length (xs ++ x ∷ []) ≡ length xs + 1
length-snoc [] x = refl
length-snoc (y ∷ ys) x = omega (arith, length-snoc ys x)

run_steps-length :
    (t : Target) (c : Case) (sqls : List Text) (calls : List Call) (obs out : List Observation)
    → (run_steps t c sqls calls obs).1 ≡ inr out
    → length out ≡ length obs + length sqls
unfolding run_steps
run_steps-length t c [] calls obs out e = ground (arith, e)
run_steps-length t c (sql ∷ rest) calls obs out e =
    let o = t.observe calls c.simple_protocol sql in
    let after = calls ++ step c.simple_protocol sql ∷ [] in
    ground (arith, e, run_steps-length t c rest after (obs ++ o ∷ []) out, length-snoc obs o)

-- Calls that come after others.
abbrev pub After : List Call → List Call → Type 0
After calls later = (more : List Call) × (later ≡ calls ++ more)

After_trans : (a b c : List Call) → After a b → After b c → After a c
After_trans a b c (m, p) (n, q) = (m ++ n, q ∙ (ap (λ x. x ++ n) p ∙ append_assoc a m n))

run_steps-After :
    (t : Target) (c : Case) (sqls : List Text) (calls : List Call) (obs : List Observation)
    → After calls (run_steps t c sqls calls obs).0
unfolding run_steps
run_steps-After t c [] calls obs = ([], sym (append-nil calls))
run_steps-After t c (sql ∷ rest) calls obs =
    let o = t.observe calls c.simple_protocol sql in
    let after = calls ++ step c.simple_protocol sql ∷ [] in
    elim (Bool-cases (not (answered o) && t.is_closed after)) [
      | inl p ↦ (step c.simple_protocol sql ∷ [], ground (arith, p))
      | inr p ↦
          let (m, q) =
            After_trans calls after _ (step c.simple_protocol sql ∷ [], refl)
              (run_steps-After t c rest after (obs ++ o ∷ [])) in
          (m, ground (arith, p, q))
    ]

-- What a case that was run to its end left.
record IsRun (t : Target) (c : Case) (calls : List Call) (r : RecordedCase) : Type 0 where
  probe : r.probe ≡ c
  observed : all_observed (r ∷ []) ≡ true
  after : After calls (run_case t c calls).0

steps_recorded-inr :
    (c : Case) (s : List Call × (RunError ⊎ List Observation)) (r : RecordedCase)
    → (steps_recorded c s).1 ≡ inr r
    → (s.1 ≡ inr r.observations) × (r.probe ≡ c) × ((steps_recorded c s).0 ≡ s.0 ++ reset ∷ [])
steps_recorded-inr c (calls, inl e) r h = ground arith
steps_recorded-inr c (calls, inr obs) r h = ground (arith, h)

probe-sessions_recorded :
    (c : Case) (x : Failure ⊎ List (List Observation)) (r : RecordedCase)
    → sessions_recorded c x ≡ inr r
    → r.probe ≡ c
probe-sessions_recorded c (inl f) r h = ground arith
probe-sessions_recorded c (inr sessions) r h = ground (arith, h)

run_case-IsRun :
    (t : Target) (c : Case) (calls : List Call) (r : RecordedCase)
    → (run_case t c calls).1 ≡ inr r
    → IsRun t c calls r
unfolding run_case all_observed run_steps
run_case-IsRun t c calls r e = elim (Bool-cases (is_nil c.sessions)) [
  | inl p ↦
      let steps = run_steps t c c.steps calls [] in
      let (out, probe, more) = steps_recorded-inr c steps r (ground (arith, p, e)) in
      let (m, q) =
        After_trans calls steps.0 _ (run_steps-After t c c.steps calls []) (reset ∷ [], refl) in
      record {
        probe = probe;
        observed = ground (
          arith,
          p,
          run_steps-length t c c.steps calls [] r.observations out,
          ap (λ (x : Case). length x.steps) probe,
        );
        after = (m, ground (arith, p, more, q));
      }
  | inr p ↦
      let probe = probe-sessions_recorded c (t.run_sessions calls c) r (ground (arith, p, e)) in
      record {
        probe = probe;
        observed = ground (arith, p, ap (λ (x : Case). is_nil x.sessions) probe);
        after = (race c ∷ [], ground (arith, p));
      }
]

pub run_script-calls :
    (t : Target) (raise : Text → Failure → RunError) (sqls : List Text) (calls : List Call)
    → (run_script t raise sqls calls).1 ≡ none
    → (run_script t raise sqls calls).0 ≡ calls ++ map script sqls
unfolding run_script
run_script-calls t raise [] calls e = sym (append-nil calls)
run_script-calls t raise (sql ∷ rest) calls e = elim (Option-cases (exec_script t calls sql)) [
  | inl p ↦ ground (
    arith,
    p,
    e,
    run_script-calls t raise rest (calls ++ script sql ∷ []),
    append_assoc calls (script sql ∷ []) (map script rest),
  )
  | inr (f, p) ↦ ground (arith, p, e)
]

-- What the loop over the cases left, where it raised no error.
pub record IsLooped (include : Bool) (cases : List Case) (calls : List Call)
    (recorded : List RecordedCase) (r : Run) : Type 0 where
  pub probes : map probe_of r.recorded ≡ map probe_of recorded ++ taken include cases
  pub observed : all_observed r.recorded ≡ true
  pub after : After calls r.calls

raised_or_recorded :
    (x : RunError ⊎ RecordedCase)
    → ((e : RunError) × (x ≡ inl e)) ⊎ ((r : RecordedCase) × (x ≡ inr r))
raised_or_recorded (inl e) = inl (e, refl)
raised_or_recorded (inr r) = inr (r, refl)

pub run_cases-IsLooped :
    (t : Target) (include : Bool) (cases : List Case) (calls : List Call)
    (recorded : List RecordedCase)
    → all_observed recorded ≡ true
    → (run_cases t include cases calls recorded).error ≡ none
    → IsLooped include cases calls recorded (run_cases t include cases calls recorded)
unfolding run_cases taken
run_cases-IsLooped t include [] calls recorded o e = record {
  probes = sym (append-nil (map probe_of recorded));
  observed = o;
  after = ([], sym (append-nil calls));
}
run_cases-IsLooped t include (c ∷ cases) calls recorded o e =
    elim (Bool-cases (c.record_only && not include)) [
      | inl p ↦
          let rest = run_cases-IsLooped t include cases calls recorded o (ground (arith, p, e)) in
          record {
            probes = ground (arith, p, rest.probes);
            observed = ground (arith, p, rest.observed);
            after = (rest.after.0, ground (arith, p, rest.after.1));
          }
      | inr p ↦ elim (raised_or_recorded (run_case t c calls).1) [
        | inl (f, q) ↦ ground (arith, p, q, e)
        | inr (r, q) ↦
            let one = run_case-IsRun t c calls r q in
            let seen : all_observed (recorded ++ r ∷ []) ≡ true =
              ground (arith, all_observed-append recorded (r ∷ []), o, one.observed) in
            let rest =
              run_cases-IsLooped t include cases (run_case t c calls).0 (recorded ++ r ∷ []) seen
                (ground (arith, p, q, e)) in
            let (m, same) = After_trans calls (run_case t c calls).0 _ one.after rest.after in
            record {
              probes = ground (
                arith,
                p,
                q,
                rest.probes,
                one.probe,
                map-append recorded (r ∷ []),
                append_assoc (map probe_of recorded) (r.probe ∷ []) (taken include cases),
              );
              observed = ground (arith, p, q, rest.observed);
              after = (m, ground (arith, p, q, same));
            }
      ]
    ]
