-- ===== src/Session/Deferral.antt =====
-- A statement that was refused a lock is answered as though it had run.
use dsql_emulator.Prelude.{
  ℕ, ◌≡◌, refl, Bool, true, false, ◌||◌, List, [], ◌∷◌, ◌++◌, Option, none, some, ◌==◌,
  if◌then◌else◌, arith, ℤ,
}
use dsql_emulator.Wire.{Message}
use dsql_emulator.Session.State.{Env, Session, InFlight, Hidden, restoring, query}
use dsql_emulator.Session.Shadow.{first_column_int}
use dsql_emulator.Session.Adjudicator.{
  rollback_to_query, conflicts, or_rows, occ_intercept, start_repair,
}
use dsql_emulator.Session.Backend.{backend, backend_all, on_ready}
use dsql_emulator.Session.Swallow.{readies}

-- The fields that the steps of a repair rely on.
pub record Stage (s : Session) (h : Option Hidden) : Type 0 where
  pub hidden : s.hidden ≡ h
  pub failure : s.failure ≡ none
  pub pending : s.pending_exchanges ≡ 1

unfoldable pub has_error : List Message → Bool
has_error [] = false
has_error (m ∷ ms) = m.tag == b'E' || has_error ms

-- What the last row of an exchange says, where one says a number.
unfoldable pub last_count : Env → List Message → ℤ → ℤ
last_count e [] n = n
last_count e (m ∷ ms) n =
    last_count e ms (if m.tag == b'D' then or_rows (first_column_int e.codec m) n else n)

-- A lock refused to a statement that the session can answer for, while nothing but it is unanswered.
pub record IsRefusedLock (e : Env) (s : Session) (m : Message) (f : InFlight) : Type 0 where
  pub tag : m.tag ≡ b'E'
  pub conflict : conflicts (e.codec.decode_error m.body) ≡ true
  pub saved : s.occ_savepoint ≡ true
  pub in_txn : s.tracker.in_txn ≡ true
  pub in_flight : s.occ_in_flight ≡ some f
  pub unrepaired : s.occ_repair ≡ none
  pub stage : Stage s none

-- The error is kept from the client.
pub intercepted :
    (e : Env) (s : Session) (m : Message) (f : InFlight)
    → IsRefusedLock e s m f
    → let t = backend e s m in
      Stage t none
      × (t.occ_repair ≡ some f)
      × (t.occ_savepoint ≡ true)
      × (t.to_client ≡ s.to_client)
      × (t.to_upstream ≡ s.to_upstream)
unfolding backend occ_intercept
intercepted e s m f v = ground arith

-- So is what follows it.
pub skipped :
    (e : Env) (s : Session) (ms : List Message) {f : InFlight}
    → s.hidden ≡ none
    → s.failure ≡ none
    → s.occ_repair ≡ some f
    → readies ms ≡ 0
    → backend_all e s ms ≡ s
unfolding backend_all backend readies
skipped e s [] h g p r = refl
skipped e s (m ∷ ms) h g p r = ground (arith, skipped e s ms h g p)

-- The ReadyForQuery of the failed exchange starts the repair.
pub repair_started :
    (e : Env) (s : Session) (z : Message) (f : InFlight) (status : ℕ)
    → Stage s none
    → s.occ_repair ≡ some f
    → s.occ_savepoint ≡ true
    → z.tag ≡ b'Z'
    → e.codec.decode_ready z.body ≡ some status
    → let t = backend e s z in
      Stage t (some (restoring f false))
      × (t.occ_doomed ≡ true)
      × (t.tx_status ≡ b'T')
      × (t.to_client ≡ s.to_client)
      × (t.to_upstream ≡ s.to_upstream ++ query rollback_to_query ∷ [])
unfolding backend on_ready start_repair
repair_started e s z f status g p sv t d = ground arith

pub restoring_kept :
    (e : Env) (s : Session) (ms : List Message) {f : InFlight}
    → s.hidden ≡ some (restoring f false)
    → readies ms ≡ 0
    → has_error ms ≡ false
    → backend_all e s ms ≡ s
unfolding backend_all backend readies has_error
restoring_kept e s [] h r x = refl
restoring_kept e s (m ∷ ms) {f} h r x = ground (arith, restoring_kept e s ms {f = f} h)
