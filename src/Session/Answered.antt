-- ===== src/Session/Answered.antt =====
-- The whole of a deferred conflict: from the refused lock to the answer.
use dsql_emulator.Prelude.{ℕ, ◌≡◌, ap, true, false, List, [], ◌∷◌, ◌++◌, none, some, ◌∙◌, ℤ, pos}
use dsql_emulator.Occ.{command_tag}
use dsql_emulator.Wire.{Message}
use dsql_emulator.Session.State.{Env, Session, InFlight, command_complete, ready_for_query, query}
use dsql_emulator.Session.Adjudicator.{rollback_to_query}
use dsql_emulator.Session.Backend.{backend, backend_all}
use dsql_emulator.Session.Swallow.{readies, backend_all-append}
use dsql_emulator.Session.Deferral.{
  IsRefusedLock, has_error, last_count, intercepted, skipped, repair_started, restoring_kept,
}
use dsql_emulator.Session.Repair.{IsCounted, shadow_started, counted_all, repair_ended}

-- What the upstream sends: the error and the end of its exchange, the answer to the rollback, and the
-- answer to the shadow.
pub record Answer : Type 0 where
  pub error : Message
  pub after_error : List Message
  pub failed : Message
  pub restored : List Message
  pub restore_ready : Message
  pub shadow : List Message
  pub shadow_ready : Message

abbrev pub messages : Answer → List Message
messages a =
    a.error
    ∷ (a.after_error
        ++ a.failed ∷ (a.restored ++ a.restore_ready ∷ (a.shadow ++ a.shadow_ready ∷ [])))

-- Three exchanges, each ended by its ReadyForQuery; the repair's own do not fail.
pub record IsRepaired (e : Env) (a : Answer) (status : ℕ) : Type 0 where
  pub after_error_open : readies a.after_error ≡ 0
  pub failed_ready : a.failed.tag ≡ b'Z'
  pub failed_status : e.codec.decode_ready a.failed.body ≡ some status
  pub restored_open : readies a.restored ≡ 0
  pub restored_fine : has_error a.restored ≡ false
  pub restored_ready : a.restore_ready.tag ≡ b'Z'
  pub shadow_open : readies a.shadow ≡ 0
  pub shadow_fine : has_error a.shadow ≡ false
  pub shadow_ended : a.shadow_ready.tag ≡ b'Z'

cut_at_ready :
    (e : Env) (s : Session) (ms : List Message) (z : Message) (rest : List Message)
    → backend_all e s (ms ++ z ∷ rest) ≡ backend_all e (backend e (backend_all e s ms) z) rest
unfolding backend_all
cut_at_ready e s ms z rest = backend_all-append e s ms (z ∷ rest)

cut_quiet :
    (e : Env) (s : Session) (ms : List Message) (z : Message) (rest : List Message)
    → backend_all e s ms ≡ s
    → backend_all e s (ms ++ z ∷ rest) ≡ backend_all e (backend e s z) rest
cut_quiet e s ms z rest q =
    cut_at_ready e s ms z rest ∙ ap (λ t. backend_all e (backend e t z) rest) q

-- A statement is refused a lock in a transaction with a savepoint, while nothing else is unanswered, and its
-- rows are counted by a shadow without parameters, as for an UPDATE or a DELETE. Whatever the upstream's
-- three exchanges carry beside the shadow's rows, where the rollback and the shadow do not fail, the client
-- is sent one CommandComplete, with the statement's tag and the rows that the shadow counted, and one
-- ReadyForQuery in an open transaction, and nothing of the error; the upstream is sent the rollback to the
-- savepoint and the shadow; and the transaction is doomed.
pub refused_lock_answered :
    (e : Env) (s : Session) (f : InFlight) (a : Answer) (status : ℕ)
    → IsRefusedLock e s a.error f
    → IsCounted f
    → IsRepaired e a status
    → let t = backend_all e s (messages a) in
      (t.to_client
        ≡ (s.to_client
            ++ command_complete (command_tag f.intent (last_count e a.shadow (pos 0))) ∷ [])
          ++ ready_for_query b'T' ∷ [])
      × (t.to_upstream
          ≡ (s.to_upstream ++ query rollback_to_query ∷ []) ++ query f.intent.shadow ∷ [])
      × (t.occ_doomed ≡ true)
      × (t.tx_status ≡ b'T')
      × (t.hidden ≡ none)
unfolding backend_all
refused_lock_answered e s f a status v c r =
    let s₁ : Session = backend e s a.error in
    let one = intercepted e s a.error f v in
    let s₂ : Session = backend e s₁ a.failed in
    let two =
      repair_started e s₁ a.failed f status one.0 one.1 one.2 r.failed_ready r.failed_status in
    let s₃ : Session = backend e s₂ a.restore_ready in
    let three = shadow_started e s₂ a.restore_ready f two.0 c r.restored_ready in
    let s₄ : Session = backend_all e s₃ a.shadow in
    let four = counted_all e s₃ a.shadow f (pos 0) three.0 r.shadow_open r.shadow_fine in
    let n : ℤ = last_count e a.shadow (pos 0) in
    let five = repair_ended e s₄ a.shadow_ready f n four.stage r.shadow_ended in
    let path : backend_all e s (messages a) ≡ backend e s₄ a.shadow_ready =
      cut_quiet e s₁ a.after_error a.failed _
        (skipped e s₁ a.after_error one.0.hidden one.0.failure one.1 r.after_error_open)
      ∙ (cut_quiet e s₂ a.restored a.restore_ready _
            (restoring_kept e s₂ a.restored two.0.hidden r.restored_open r.restored_fine)
          ∙ cut_at_ready e s₃ a.shadow a.shadow_ready []) in
    (
      ap (λ t. t.to_client) path
          ∙ (five.0
              ∙ ap
                  (λ l.
                    (l ++ command_complete (command_tag f.intent n) ∷ [])
                    ++ ready_for_query b'T' ∷ [])
                  (four.client ∙ (three.3 ∙ (two.3 ∙ one.3)))),
      ap (λ t. t.to_upstream) path
          ∙ (five.1
              ∙ (four.upstream
                  ∙ (three.4
                      ∙ ap (λ l. l ++ query f.intent.shadow ∷ [])
                          (two.4 ∙ ap (λ l. l ++ query rollback_to_query ∷ []) one.4)))),
      ap (λ t. t.occ_doomed) path ∙ (five.3 ∙ (four.doomed ∙ (three.1 ∙ two.1))),
      ap (λ t. t.tx_status) path ∙ (five.4 ∙ (four.status ∙ (three.2 ∙ two.2))),
      ap (λ t. t.hidden) path ∙ five.2,
    )
