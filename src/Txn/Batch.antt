-- ===== src/Txn/Batch.antt =====
-- What `Admit` answers, and what it leaves of the tracker.
use dsql_emulator.Prelude.{
  ℕ, ◌+◌, ◌≤◌, ◌<◌, ◌≡◌, refl, true, false, List, [], ◌∷◌, none, some, arith, Option-cases,
}
use dsql_emulator.Kind.{Kind, other, select, dml, ddl, begin, commit, rollback}
use dsql_emulator.Txn.{
  Limits, Tracker, Violation, age_violation, settle, check, has_rollback, too_old, note, note_all,
  admit, run, new,
}

-- A refused batch leaves the tracker as it was, but that outside a transaction the counts
-- of the batch before it are dropped.
pub admit_refused :
    (t : Tracker) (ks : List Kind) (now : ℕ) {v : Violation}
    → (admit t ks now).1 ≡ some v
    → (admit t ks now).0 ≡ settle t
unfolding admit
admit_refused t ks now h =
    ground (arith, Option-cases (check (settle t).ddl_count (settle t).dml_seen ks))

-- A ROLLBACK on its own is admitted at every age and in every state, and ends the transaction
-- with both counts at their start.
pub admit-rollback :
    (t : Tracker) (now : ℕ)
    → ((admit t (rollback ∷ []) now).1 ≡ none)
      × ((admit t (rollback ∷ []) now).0.in_txn ≡ false)
      × ((admit t (rollback ∷ []) now).0.ddl_count ≡ 0)
      × ((admit t (rollback ∷ []) now).0.dml_seen ≡ false)
unfolding admit has_rollback check note_all note
admit-rollback t now = (refl, refl, refl, refl)

-- In a transaction that began at `began`, a batch with no ROLLBACK is refused for its age as soon as
-- the time since then is over a limit that is set, whatever the batch holds.
pub admit_expired :
    (t : Tracker) (ks : List Kind) (began now : ℕ)
    → t.in_txn ≡ true
    → t.began_at ≡ some began
    → has_rollback ks ≡ false
    → 0 < t.limits.max_age
    → began + t.limits.max_age < now
    → admit t ks now ≡ (t, some (age_violation t.limits))
unfolding admit settle too_old
admit_expired t ks began now i b r p q = ground arith

-- At most one DDL statement, and then no DML statement.
pub record IsExclusive (t : Tracker) : Type 0 where
  pub single : t.ddl_count ≤ 1
  pub apart : t.ddl_count ≡ 1 → t.dml_seen ≡ false

settle-IsExclusive : (t : Tracker) → IsExclusive t → IsExclusive (settle t)
unfolding settle
settle-IsExclusive t v = ground arith

note_all-IsExclusive :
    (now : ℕ) (t : Tracker) (ks : List Kind)
    → check t.ddl_count t.dml_seen ks ≡ none
    → IsExclusive t
    → IsExclusive (note_all now t ks)
unfolding note_all check note
note_all-IsExclusive now t [] c v = v
note_all-IsExclusive now t (begin ∷ ks) c v =
    note_all-IsExclusive now (note now t begin) ks c (ground arith)
note_all-IsExclusive now t (commit ∷ ks) c v =
    note_all-IsExclusive now (note now t commit) ks c (ground arith)
note_all-IsExclusive now t (rollback ∷ ks) c v =
    note_all-IsExclusive now (note now t rollback) ks c (ground arith)
note_all-IsExclusive now t (ddl ∷ ks) c v =
    note_all-IsExclusive now (note now t ddl) ks (ground arith) (ground arith)
note_all-IsExclusive now t (dml ∷ ks) c v =
    note_all-IsExclusive now (note now t dml) ks (ground arith) (ground arith)
note_all-IsExclusive now t (other ∷ ks) c v = note_all-IsExclusive now t ks c v
note_all-IsExclusive now t (select ∷ ks) c v = note_all-IsExclusive now t ks c v

pub admit-IsExclusive :
    (t : Tracker) (ks : List Kind) (now : ℕ) → IsExclusive t → IsExclusive (admit t ks now).0
unfolding admit
admit-IsExclusive t ks now v = ground (
  arith,
  Option-cases (check (settle t).ddl_count (settle t).dml_seen ks),
  settle-IsExclusive t v,
  note_all-IsExclusive now (settle t) ks,
)

run-IsExclusive-from :
    (t : Tracker) (bs : List (List Kind × ℕ)) → IsExclusive t → IsExclusive (run t bs)
unfolding run
run-IsExclusive-from t [] v = v
run-IsExclusive-from t ((ks, now) ∷ bs) v =
    run-IsExclusive-from (admit t ks now).0 bs (admit-IsExclusive t ks now v)

-- Whatever batches a session submits, and whenever, a new tracker never counts a second DDL statement,
-- nor DDL and DML statements together.
pub run-IsExclusive :
    (limits : Limits) (bs : List (List Kind × ℕ)) → IsExclusive (run (new limits) bs)
unfolding new
run-IsExclusive limits bs = run-IsExclusive-from (new limits) bs (ground arith)
