-- ===== src/Session/Conflict.antt =====
-- internal/proxy/session.go: conflicts reported at COMMIT, the injected ones among them.
use dsql_emulator.Prelude.{
  ℕ, ◌+◌, ◌%◌, Bool, true, false, not, ◌||◌, List, [], ◌∷◌, ◌++◌, Option, none, some, ◌==◌,
  if◌then◌else◌, Text, lit, is_nil, contains, is_positive, pos_part,
}
use dsql_emulator.Wire.{Message, ErrorResponse}
use dsql_emulator.Occ.{code_serialization, is_conflict}
use dsql_emulator.Rules.{Occ, OccInjection}
use dsql_emulator.Session.State.{Env, Session, error_response}
use dsql_emulator.Session.Output.{write_client, send_error}
use dsql_emulator.Session.Failure.{begin_failure, defer_failure, rollback_query}

-- The set of relations is a list; what matters is membership.
unfoldable pub add_occ_tables : Session → List Text → Session
add_occ_tables s tables = record s { occ_touched = s.occ_touched ++ tables }

unfoldable pub reset_occ : Session → Session
reset_occ s = record s {
  occ_touched = [];
  occ_doomed = false;
  occ_in_flight = none;
  occ_repair = none;
}

unfoldable pub touches : List Text → List Text → Bool
touches touched [] = false
touches touched (t ∷ ts) = contains touched t || touches touched ts

unfoldable pub matches : List Text → OccInjection → Bool
matches touched inj = is_nil inj.tables || touches touched inj.tables

-- `every`, which is 1 where the rule gives none.
unfoldable pub period : OccInjection → ℕ
period inj = if is_positive inj.every then pos_part inj.every else 1

unfoldable pub bump : (ℕ → ℕ) → ℕ → ℕ → ℕ
bump counts i j = if i == j then counts i + 1 else counts j

-- The loop over the injection rules: the counts that it leaves, and whether a rule fails the commit.
unfoldable pub inject : List Text → ℕ → List OccInjection → (ℕ → ℕ) → (ℕ → ℕ) × Bool
inject touched i [] counts = (counts, false)
inject touched i (inj ∷ rest) counts = elim (matches touched inj) [
  | false ↦ inject touched (i + 1) rest counts
  | true ↦ elim (bump counts i i % period inj == 0) [
    | true ↦ (bump counts i, true)
    | false ↦ inject touched (i + 1) rest (bump counts i)
  ]
]

abbrev keep_counts : Session → (ℕ → ℕ) × Bool → Session × Bool
keep_counts s (counts, hit) = (record s { occ_commits = counts }, hit)

unfoldable pub occ_commit_conflict : Env → Session → Session × Bool
occ_commit_conflict e s = keep_counts s (inject s.occ_touched 0 e.rules.occ.inject s.occ_commits)

unfoldable pub conflict_code : Occ → Text
conflict_code cfg = if is_nil cfg.sql_state then code_serialization else cfg.sql_state

unfoldable pub conflict_message : Occ → Text
conflict_message cfg =
    if is_nil cfg.error then lit "change conflicts with another transaction (OC000)" else cfg.error

unfoldable pub occ_failure : Env → Session → Bool → Session
unfolding send_error write_client reset_occ begin_failure defer_failure
occ_failure e s₀ extended =
    let s = reset_occ (send_error s₀ (conflict_code e.rules.occ) (conflict_message e.rules.occ)) in
    if extended
    then defer_failure s (record { statement = rollback_query; status = b'I'; swallow = 2 })
    else begin_failure s (record { statement = rollback_query; status = b'I'; swallow = 1 })

unfoldable pub as_conflict : Occ → ErrorResponse → ErrorResponse
as_conflict cfg er = record er {
  code = conflict_code cfg;
  message = conflict_message cfg;
  detail = [];
  hint = [];
}

abbrev rewrite_decoded : Env → Session → Option ErrorResponse → Session × Bool
rewrite_decoded e s none = (s, false)
rewrite_decoded e s (some er) =
    if not (is_conflict er.code)
    then (s, false)
    else if e.codec.encodes_error (as_conflict e.rules.occ er)
    then (write_client s (error_response (as_conflict e.rules.occ er)), true)
    else (s, false)

-- The result tells whether the message was answered.
unfoldable pub rewrite_conflict_error : Env → Session → Message → Session × Bool
unfolding write_client
rewrite_conflict_error e s msg = rewrite_decoded e s (e.codec.decode_error msg.body)
