-- ===== src/Txn.antt =====
-- internal/txn/txn.go: the transaction rules of one session.
-- A time is a number of nanoseconds, and `none` is Go's zero time. `Limits.MaxAge` is a number of
-- nanoseconds too; the source tests it for being positive, so 0 stands for every value below 1.
-- The saturation of `time.Time.Sub` after 292 years is left out.
pub mod Batch
pub mod Segments
pub mod History
mod Witnesses
use dsql_emulator.Prelude.{
  ℕ, suc, ◌+◌, ◌-◌, Bool, true, false, not, ◌&&◌, ◌||◌, List, [], ◌∷◌, ◌++◌, Option, none, some,
  ltb, leb, if◌then◌else◌, Text, lit, show_duration,
}
use dsql_emulator.Kind.{Kind, other, select, dml, ddl, begin, commit, rollback, is_rollback}

pub record Limits : Type 0 where
  pub max_age : ℕ

pub record Violation : Type 0 where
  pub code : Text
  pub message : Text
  pub rule : Text

pub record Stats : Type 0 where
  pub in_txn : Bool
  pub ddl_count : ℕ
  pub dml_seen : Bool

pub record Tracker : Type 0 where
  pub limits : Limits
  pub in_txn : Bool
  pub began_at : Option ℕ
  pub ddl_count : ℕ
  pub dml_seen : Bool

unfoldable pub new : Limits → Tracker
new limits = record {
  limits = limits;
  in_txn = false;
  began_at = none;
  ddl_count = 0;
  dml_seen = false;
}

unfoldable pub age_violation : Limits → Violation
age_violation limits = record {
  code = lit "54000";
  message = lit "transaction age of " ++ (show_duration limits.max_age ++ lit " exceeded");
  rule = lit "txn_age";
}

unfoldable pub count_violation : Violation
count_violation = record {
  code = lit "0A000";
  message = lit "multiple ddl statements not supported in a transaction";
  rule = lit "ddl_count";
}

unfoldable pub mix_violation : Violation
mix_violation = record {
  code = lit "0A000";
  message = lit "ddl and dml are not supported in the same transaction";
  rule = lit "ddl_dml_mix";
}

unfoldable pub reset : Tracker → Tracker
reset t = record t { ddl_count = 0; dml_seen = false }

-- The first loop of `Admit`.
unfoldable pub has_rollback : List Kind → Bool
has_rollback [] = false
has_rollback (k ∷ ks) = is_rollback k || has_rollback ks

abbrev elapsed_over : Option ℕ → ℕ → ℕ → Bool
elapsed_over none now max_age = false
elapsed_over (some began) now max_age = ltb max_age (now - began)

unfoldable pub too_old : Tracker → ℕ → Bool
too_old t now = ltb 0 t.limits.max_age && elapsed_over t.began_at now t.limits.max_age

-- The second loop: what the batch would do to the counts, and the first rule that it breaks.
unfoldable pub check : ℕ → Bool → List Kind → Option Violation
check n seen [] = none
check n seen (begin ∷ ks) = check 0 false ks
check n seen (commit ∷ ks) = check 0 false ks
check n seen (rollback ∷ ks) = check 0 false ks
check n seen (ddl ∷ ks) =
    let rest = check (n + 1) seen ks in
    if leb 1 n then some count_violation else if seen then some mix_violation else rest
check n seen (dml ∷ ks) = let rest = check n true ks in if ltb 0 n then some mix_violation else rest
check n seen (other ∷ ks) = check n seen ks
check n seen (select ∷ ks) = check n seen ks

-- The third loop: what one admitted statement does to the tracker.
unfoldable pub note : ℕ → Tracker → Kind → Tracker
unfolding reset
note now t begin = record t { in_txn = true; began_at = some now; ddl_count = 0; dml_seen = false }
note now t commit = reset (record t { in_txn = false })
note now t rollback = reset (record t { in_txn = false })
note now t ddl = record t { ddl_count = t.ddl_count + 1 }
note now t dml = record t { dml_seen = true }
note now t other = t
note now t select = t

unfoldable pub note_all : ℕ → Tracker → List Kind → Tracker
note_all now t [] = t
note_all now t (k ∷ ks) = note_all now (note now t k) ks

-- What `Admit` does to the tracker before it looks at the batch.
unfoldable pub settle : Tracker → Tracker
unfolding reset
settle t = if t.in_txn then t else reset t

abbrev decide : Option Violation → ℕ → Tracker → List Kind → Tracker × Option Violation
decide (some v) now t kinds = (t, some v)
decide none now t kinds = (note_all now (settle t) kinds, none)

unfoldable pub admit : Tracker → List Kind → ℕ → Tracker × Option Violation
unfolding settle
admit t₀ kinds now =
    let t = settle t₀ in
    if not (has_rollback kinds) && t.in_txn && too_old t now
    then (t, some (age_violation t.limits))
    else decide (check t.ddl_count t.dml_seen kinds) now t kinds

unfoldable pub stats : Tracker → Stats
stats t = record { in_txn = t.in_txn; ddl_count = t.ddl_count; dml_seen = t.dml_seen }

-- A session's batches, each with the time at which it is submitted.
unfoldable pub run : Tracker → List (List Kind × ℕ) → Tracker
run t [] = t
run t ((kinds, now) ∷ rest) = run (admit t kinds now).0 rest
