-- ===== src/Conformance/Run.antt =====
-- `RunSuite` of internal/conformance/record.go.
use dsql_emulator.Prelude.{
  ℕ, Bool, true, false, not, ◌&&◌, List, [], ◌∷◌, ◌++◌, is_nil, if◌then◌else◌, Option, none, some,
  Text, ◌⊎◌, inl, inr,
}
use dsql_emulator.Conformance.Data.{Case, Observation, RecordedCase, Golden}
use dsql_emulator.Conformance.Observe.{Failure, answered, exec_retrying_conflicts}

pub record Suite : Type 0 where
  pub name : Text
  pub setup : List Text
  pub verify : List Text
  pub cleanup : List Text
  pub cases : List Case

-- What is asked of the target: its version; a statement of a script, which is retried; a step, as a simple
-- query or not; the ROLLBACK after a case; and the sessions of a case, which have connections of their
-- own.
pub data Call : Type 0 where
  ask_version : Call
  script : Text → Call
  step : Bool → Text → Call
  reset : Call
  race : Case → Call

-- A target, by what it answers after the calls so far. Of a script's statement it has an answer for each
-- attempt, and whether the context cuts short the delay before an attempt.
pub record Target : Type 0 where
  pub connects : Option Failure
  pub version : Option Text
  pub now : ℕ
  pub exec : List Call → Text → ℕ → Option Failure
  pub cut_short : List Call → Text → ℕ → Option Failure
  pub observe : List Call → Bool → Text → Observation
  pub is_closed : List Call → Bool
  pub run_sessions : List Call → Case → Failure ⊎ List (List Observation)

-- The errors of a run, by where they are raised.
pub data RunError : Type 0 where
  connect : Failure → RunError
  in_setup in_verify in_survival : Text → Failure → RunError
  in_case : Text → Failure → RunError
  lost_connection : Text → Text → Text → RunError

abbrev pub exec_script : Target → List Call → Text → Option Failure
unfolding exec_retrying_conflicts
exec_script t calls sql = exec_retrying_conflicts (t.exec calls sql) (t.cut_short calls sql)

-- A loop over the statements of a script, which stops at the first that fails.
unfoldable pub run_script :
    Target → (Text → Failure → RunError) → List Text → List Call → List Call × Option RunError
run_script t raise [] calls = (calls, none)
run_script t raise (sql ∷ rest) calls = elim (exec_script t calls sql) [
  | some f ↦ (calls ++ script sql ∷ [], some (raise sql f))
  | none ↦ run_script t raise rest (calls ++ script sql ∷ [])
]

-- The deferred loop, which goes on after a failure.
unfoldable pub run_cleanup : Target → List Text → List Call → List Call
run_cleanup t [] calls = calls
run_cleanup t (sql ∷ rest) calls = elim (exec_script t calls sql) [
  | some f ↦ run_cleanup t rest (calls ++ script sql ∷ [])
  | none ↦ run_cleanup t rest (calls ++ script sql ∷ [])
]

-- The loop over the steps of a case, with the observations so far.
unfoldable pub run_steps :
    Target
    → Case
    → List Text
    → List Call
    → List Observation
    → List Call × (RunError ⊎ List Observation)
run_steps t c [] calls obs = (calls, inr obs)
run_steps t c (sql ∷ rest) calls obs =
    let o = t.observe calls c.simple_protocol sql in
    let after = calls ++ step c.simple_protocol sql ∷ [] in
    elim (not (answered o) && t.is_closed after) [
      | true ↦ (after, inl (lost_connection c.name sql o.message))
      | false ↦ run_steps t c rest after (obs ++ o ∷ [])
    ]

abbrev pub steps_recorded :
    Case → List Call × (RunError ⊎ List Observation) → List Call × (RunError ⊎ RecordedCase)
steps_recorded c (calls, inl e) = (calls, inl e)
steps_recorded c (calls, inr obs) =
    (calls ++ reset ∷ [], inr (record { probe = c; observations = obs; session_results = [] }))

abbrev pub sessions_recorded : Case → Failure ⊎ List (List Observation) → RunError ⊎ RecordedCase
sessions_recorded c (inl f) = inl (in_case c.name f)
sessions_recorded c (inr sessions) =
    inr (record { probe = c; observations = []; session_results = sessions })

-- The body of the loop over the cases, for one that is not skipped.
unfoldable pub run_case : Target → Case → List Call → List Call × (RunError ⊎ RecordedCase)
unfolding run_steps
run_case t c calls =
    if not (is_nil c.sessions)
    then (calls ++ race c ∷ [], sessions_recorded c (t.run_sessions calls c))
    else steps_recorded c (run_steps t c c.steps calls [])

-- What the body of RunSuite leaves: the calls, the recorded cases, and the error that it returns.
pub record Run : Type 0 where
  pub calls : List Call
  pub recorded : List RecordedCase
  pub error : Option RunError

unfoldable pub run_cases : Target → Bool → List Case → List Call → List RecordedCase → Run
unfolding run_case
run_cases t include [] calls recorded = record { calls = calls; recorded = recorded; error = none }
run_cases t include (c ∷ cases) calls recorded = elim (c.record_only && not include) [
  | true ↦ run_cases t include cases calls recorded
  | false ↦
      let one = run_case t c calls in
      elim one.1 [
        | inl e ↦ record { calls = one.0; recorded = recorded; error = some e }
        | inr r ↦ run_cases t include cases one.0 (recorded ++ r ∷ [])
      ]
]

-- The last loop: the schema has to be there still.
unfoldable pub survive : Target → List Text → Run → Run
unfolding run_script
survive t verify r = elim r.error [
  | some e ↦ r
  | none ↦ let s = run_script t in_survival verify r.calls in record r { calls = s.0; error = s.1 }
]

-- The whole body: the version, whose failure is only reported, setup, verification, cases, verification.
unfoldable pub run_body : Target → Suite → Bool → Run
unfolding run_script run_cases survive
run_body t s include =
    let a = run_script t in_setup s.setup (ask_version ∷ []) in
    elim a.1 [
      | some e ↦ record { calls = a.0; recorded = []; error = some e }
      | none ↦
          let b = run_script t in_verify s.verify a.0 in
          elim b.1 [
            | some e ↦ record { calls = b.0; recorded = []; error = some e }
            | none ↦ survive t s.verify (run_cases t include s.cases b.0 [])
          ]
    ]

abbrev pub or_empty_version : Option Text → Text
or_empty_version none = []
or_empty_version (some v) = v

abbrev pub golden_of : Target → Suite → List RecordedCase → Golden
golden_of t s cases = record {
  recorded_at = t.now;
  target = [];
  server_version = or_empty_version t.version;
  suite = s.name;
  cases = cases;
}

-- What `RunSuite` returns, and all that was asked of the target.
pub record Outcome : Type 0 where
  pub golden : Option Golden
  pub error : Option RunError
  pub calls : List Call

unfoldable pub run_suite : Target → Suite → Bool → Outcome
unfolding run_body run_cleanup
run_suite t s include = elim t.connects [
  | some f ↦ record { golden = none; error = some (connect f); calls = [] }
  | none ↦
      let r = run_body t s include in
      record {
        golden = some (golden_of t s r.recorded);
        error = r.error;
        calls = run_cleanup t s.cleanup r.calls;
      }
]
