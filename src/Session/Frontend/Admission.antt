-- ===== src/Session/Frontend/Admission.antt =====
-- internal/proxy/session.go: what handleQuery and handleBind do alike with an admitted statement, and the end
-- of an aborted transaction.
use dsql_emulator.Prelude.{
  ℕ, Bool, true, false, Option, none, some, if◌then◌else◌, List, [], ◌∷◌, Text,
}
use dsql_emulator.Kind.{Kind, rollback, is_commit, ends_transaction}
use dsql_emulator.Verdict.{Result}
use dsql_emulator.Txn.{Violation, admit}
use dsql_emulator.Occ.{Intent}
use dsql_emulator.Wire.{Bind}
use dsql_emulator.Session.State.{Env, Session}
use dsql_emulator.Session.Conflict.{add_occ_tables, reset_occ, occ_commit_conflict, occ_failure}
use dsql_emulator.Session.Adjudicator.{count_txn_statement, arm_adjudicator}

-- `Admit`, with what it does to the session's tracker.
abbrev pub admitted {ℓ} :
    {A : Type ℓ} → Session → List Kind → ℕ → (Session → Violation → A) → (Session → A) → A
admitted s kinds now refused accepted =
    let (t, v) = admit s.tracker kinds now in
    elim v [
      | some x ↦ refused (record s { tracker = t }) x
      | none ↦ accepted (record s { tracker = t })
    ]

unfoldable pub end_aborted : Session → ℕ → Session
unfolding reset_occ
end_aborted s now = record (reset_occ (record s { txn_aborted = false; skip_sync = false })) {
  tracker = (admit s.tracker (rollback ∷ []) now).0;
}

abbrev pub ends_sql : Option Result → Bool
ends_sql none = false
ends_sql (some r) = ends_transaction r.kinds

-- Whether this COMMIT is failed for a conflict: the transaction is doomed, or an injection rule says so.
unfoldable pub commit_fails : Env → Session → List Kind → Session × Bool
unfolding occ_commit_conflict
commit_fails e s kinds =
    if is_commit kinds
    then (if s.occ_doomed then (s, true) else occ_commit_conflict e s)
    else (s, false)

-- What a simple Query and a Bind do alike once their statement is admitted; `rest` forwards it.
unfoldable pub run_admitted :
    Env
    → Session
    → List Kind
    → List Text
    → Option Intent
    → Option Bind
    → Bool
    → (Session → Session)
    → Session
unfolding add_occ_tables count_txn_statement commit_fails occ_failure reset_occ arm_adjudicator
run_admitted e s₀ kinds tables intent b extended rest =
    let s = count_txn_statement (add_occ_tables s₀ tables) kinds in
    let (t, fails) = commit_fails e s kinds in
    if ends_transaction kinds
    then (if fails then occ_failure e t extended else rest (reset_occ t))
    else if s.tracker.in_txn
    then rest (arm_adjudicator s intent b)
    else rest s
