-- ===== src/Session/Swallow.antt =====
-- An injected failure hides what the upstream answers, and completes the client's exchange once.
use dsql_emulator.Prelude.{
  ℕ, suc, ◌+◌, ◌<◌, ◌≡◌, refl, ap, List, [], ◌∷◌, ◌++◌, none, some, ◌==◌, if◌then◌else◌, arith, ◌∙◌,
}
use dsql_emulator.Wire.{Message}
use dsql_emulator.Session.State.{Env, Session, TxnFailure, ready_for_query}
use dsql_emulator.Session.Backend.{backend, backend_all}

-- The ReadyForQuery messages among those of the upstream.
unfoldable pub readies : List Message → ℕ
readies [] = 0
readies (m ∷ ms) = let rest = readies ms in if m.tag == b'Z' then suc rest else rest

-- A failure is waiting for the upstream, and nothing else claims its messages.
pub record IsSwallowing (s : Session) (f : TxnFailure) : Type 0 where
  pub failing : s.failure ≡ some f
  pub alone : s.hidden ≡ none

-- One message short of the failure's last ReadyForQuery writes nothing.
swallow_step :
    (e : Env) (s : Session) (m : Message) {f : TxnFailure}
    → IsSwallowing s f
    → s.failure_rfqs + readies (m ∷ []) < f.swallow
    → IsSwallowing (backend e s m) f
      × ((backend e s m).to_client ≡ s.to_client)
      × ((backend e s m).failure_rfqs ≡ s.failure_rfqs + readies (m ∷ []))
      × ((backend e s m).txn_aborted ≡ s.txn_aborted)
unfolding backend readies
swallow_step e s m w h = ground arith

readies_head :
    (n : ℕ) (m : Message) (ms : List Message) {k : ℕ}
    → n + readies (m ∷ ms) < k
    → n + readies (m ∷ []) < k
unfolding readies
readies_head n m ms h = ground arith

swallow_all :
    (e : Env) (s : Session) (ms : List Message) {f : TxnFailure}
    → IsSwallowing s f
    → s.failure_rfqs + readies ms < f.swallow
    → IsSwallowing (backend_all e s ms) f
      × ((backend_all e s ms).to_client ≡ s.to_client)
      × ((backend_all e s ms).failure_rfqs ≡ s.failure_rfqs + readies ms)
      × ((backend_all e s ms).txn_aborted ≡ s.txn_aborted)
unfolding backend_all readies
swallow_all e s [] w h = (w, refl, omega arith, refl)
swallow_all e s (m ∷ ms) w h =
    let step = swallow_step e s m w (readies_head s.failure_rfqs m ms h) in
    let (w', shown, rfqs, aborted) = step in
    let rest = swallow_all e (backend e s m) ms w' (ground arith) in
    (rest.0, rest.1 ∙ shown, ground arith, rest.3 ∙ aborted)

swallow_last :
    (e : Env) (s : Session) (z : Message) {f : TxnFailure}
    → IsSwallowing s f
    → z.tag ≡ b'Z'
    → s.failure_rfqs + 1 ≡ f.swallow
    → ((backend e s z).to_client ≡ s.to_client ++ ready_for_query f.status ∷ [])
      × ((backend e s z).failure ≡ none)
      × ((backend e s z).txn_aborted ≡ s.txn_aborted)
unfolding backend
swallow_last e s z w t h = ground arith

pub backend_all-append :
    (e : Env) (s : Session) (ms ns : List Message)
    → backend_all e s (ms ++ ns) ≡ backend_all e (backend_all e s ms) ns
unfolding backend_all
backend_all-append e s [] ns = refl
backend_all-append e s (m ∷ ms) ns = backend_all-append e (backend e s m) ms ns

pub backend_all-snoc :
    (e : Env) (s : Session) (ms : List Message) (z : Message)
    → backend_all e s (ms ++ z ∷ []) ≡ backend e (backend_all e s ms) z
unfolding backend_all
backend_all-snoc e s ms z = backend_all-append e s ms (z ∷ [])

-- While a failure is injected and no hidden exchange runs, whatever the upstream answers up to the
-- ReadyForQuery that the failure waits for, the client is sent one ReadyForQuery with the failure's status
-- and nothing else, and then the failure is over.
pub failure_completes :
    (e : Env) (s : Session) (f : TxnFailure) (ms : List Message) (z : Message)
    → IsSwallowing s f
    → z.tag ≡ b'Z'
    → s.failure_rfqs + readies ms + 1 ≡ f.swallow
    → let t = backend_all e s (ms ++ z ∷ []) in
      (t.to_client ≡ s.to_client ++ ready_for_query f.status ∷ [])
      × (t.failure ≡ none)
      × (t.txn_aborted ≡ s.txn_aborted)
failure_completes e s f ms z w t h =
    let (w', shown, rfqs, aborted) = swallow_all e s ms w (omega arith) in
    let last = swallow_last e (backend_all e s ms) z w' t (omega arith) in
    rw (backend_all-snoc e s ms z)
      (last.0 ∙ ap (λ c. c ++ ready_for_query f.status ∷ []) shown, last.1, last.2 ∙ aborted)
