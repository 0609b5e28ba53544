-- ===== src/Conformance/Retries.antt =====
-- `execRetryingConflicts` of internal/conformance/record.go: how it ends.
use dsql_emulator.Prelude.{
  ℕ, zero, suc, ◌+◌, ◌<◌, ◌≡◌, refl, subst, true, false, arith, Option, none, some, Bool-cases,
  Option-cases, inl, inr,
}
use dsql_emulator.Conformance.Observe.{
  Failure, is_serialization_failure, schema_attempts, retrying, exec_retrying_conflicts,
}

module _ (exec cut_short : ℕ → Option Failure) where
  -- The attempts that are made: the first, and one after an attempt that met a conflict, unless the context
  -- cuts the delay between them short.
  pub data Made : ℕ → Type 0 where
    first : Made 0
    again :
        (n : ℕ) (f : Failure)
        → Made n
        → exec n ≡ some f
        → is_serialization_failure f ≡ true
        → cut_short (suc n) ≡ none
        → Made (suc n)

  -- The ways to end, `k` being the last attempt.
  pub data Ends : Option Failure → Type 0 where
    succeeded : (k : ℕ) → k < schema_attempts → Made k → exec k ≡ none → Ends none
    failed :
        (k : ℕ) (f : Failure)
        → k < schema_attempts
        → Made k
        → exec k ≡ some f
        → is_serialization_failure f ≡ false
        → Ends (some f)
    interrupted :
        (k : ℕ) (f g : Failure)
        → suc k < schema_attempts
        → Made k
        → exec k ≡ some f
        → is_serialization_failure f ≡ true
        → cut_short (suc k) ≡ some g
        → Ends (some g)
    gave_up :
        (k : ℕ) (f : Failure)
        → suc k ≡ schema_attempts
        → Made k
        → exec k ≡ some f
        → is_serialization_failure f ≡ true
        → Ends (some f)

  retrying-Ends :
      (n left : ℕ) (f : Failure)
      → suc n + left ≡ schema_attempts
      → Made n
      → exec n ≡ some f
      → is_serialization_failure f ≡ true
      → Ends (retrying exec cut_short (some f) (suc n) left)
  unfolding retrying
  retrying-Ends n zero f h m e c = gave_up n f (omega (arith, h)) m e c
  retrying-Ends n (suc left) f h m e c =
      let out = retrying exec cut_short (some f) (suc n) (suc left) in
      elim (Option-cases (cut_short (suc n))) [
        | inr (g, p) ↦
            let same : some g ≡ out = ground (arith, p) in
            subst Ends same (interrupted n f g (omega (arith, h)) m e c p)
        | inl p ↦
            let made : Made (suc n) = again n f m e c p in
            elim (Option-cases (exec (suc n))) [
              | inl q ↦
                  let same : none ≡ out = ground (arith, p, q) in
                  subst Ends same (succeeded (suc n) (omega (arith, h)) made q)
              | inr (g, q) ↦ elim (Bool-cases (is_serialization_failure g)) [
                | inl s ↦
                    let same : retrying exec cut_short (some g) (suc (suc n)) left ≡ out =
                      ground (arith, p, q, s) in
                    subst Ends same (retrying-Ends (suc n) left g (omega (arith, h)) made q s)
                | inr s ↦
                    let same : some g ≡ out = ground (arith, p, q, s) in
                    subst Ends same (failed (suc n) g (omega (arith, h)) made q s)
              ]
            ]
      ]

-- A schema statement is tried at most five times, and again only after a conflict: it ends without an error
-- at an attempt that succeeds, and with the error of an attempt that fails otherwise than by a conflict, with
-- that of the context where it ends the delay before the next attempt, or with that of the fifth conflict.
pub exec_retrying_conflicts-Ends :
    (exec cut_short : ℕ → Option Failure)
    → Ends exec cut_short (exec_retrying_conflicts exec cut_short)
unfolding exec_retrying_conflicts retrying
exec_retrying_conflicts-Ends exec cut_short = elim (Option-cases (exec 0)) [
  | inl q ↦ rw (q, exec_retrying_conflicts) (succeeded 0 (omega arith) first q)
  | inr (g, q) ↦ elim (Bool-cases (is_serialization_failure g)) [
    | inl s ↦ rw (q, s, exec_retrying_conflicts) (retrying-Ends exec cut_short 0 4 g refl first q s)
    | inr s ↦ rw (q, s, exec_retrying_conflicts) (failed 0 g (omega arith) first q s)
  ]
]
