-- ===== src/Session/JobAnswer.antt =====
-- The job id of an asynchronous statement goes out with that statement's own result.
use dsql_emulator.Prelude.{
  ℕ, suc, ◌-◌, ◌≤◌, ◌≡◌, ap, sym, Bool, true, not, ◌&&◌, List, [], ◌∷◌, ◌++◌, map, none, some, ◌==◌,
  if◌then◌else◌, arith, ◌∙◌, append_assoc, append-nil,
}
use dsql_emulator.Wire.{Message}
use dsql_emulator.Session.State.{
  Env, Session, JobResult, ClientMessage, relayed, job_id_row_description, job_id_data_row,
}
use dsql_emulator.Session.Backend.{backend, backend_all}
use dsql_emulator.Session.Swallow.{backend_all-append}

-- Rows and command tags: what the statements of a query are answered with.
unfoldable pub is_result : Message → Bool
is_result m =
    not (m.tag == b'n') && not (m.tag == b'E') && not (m.tag == b'S') && not (m.tag == b'Z')

unfoldable pub all_results : List Message → Bool
all_results [] = true
all_results (m ∷ ms) = is_result m && all_results ms

-- The CommandComplete messages among them.
unfoldable pub completes : List Message → ℕ
completes [] = 0
completes (m ∷ ms) = let rest = completes ms in if m.tag == b'C' then suc rest else rest

-- A job is waiting, and nothing else claims the upstream's messages.
pub record Waits (s : Session) (j : JobResult) : Type 0 where
  pub job : s.job ≡ some j
  pub alone : s.hidden ≡ none
  pub healthy : s.failure ≡ none
  pub unrepaired : s.occ_repair ≡ none
  pub untagged : s.pending_command_tag ≡ []

abbrev after_tags : JobResult → ℕ → JobResult
after_tags j n = record j { preceding_tags = j.preceding_tags - n }

relayed_one :
    (e : Env) (s : Session) (j : JobResult) (m : Message)
    → Waits s j
    → is_result m ≡ true
    → completes (m ∷ []) ≤ j.preceding_tags
    → Waits (backend e s m) (after_tags j (completes (m ∷ [])))
      × ((backend e s m).to_client ≡ s.to_client ++ relayed m ∷ [])
unfolding backend is_result completes
relayed_one e s j m w r h = ground arith

relayed_all :
    (e : Env) (s : Session) (j : JobResult) (ms : List Message)
    → Waits s j
    → all_results ms ≡ true
    → completes ms ≤ j.preceding_tags
    → Waits (backend_all e s ms) (after_tags j (completes ms))
      × ((backend_all e s ms).to_client ≡ s.to_client ++ map relayed ms)
unfolding backend_all all_results completes
relayed_all e s j [] w r h = (ground arith, sym (append-nil s.to_client))
relayed_all e s j (m ∷ ms) w r h =
    let one = relayed_one e s j m w (ground arith) (ground arith) in
    let rest =
      relayed_all e (backend e s m) (after_tags j (completes (m ∷ []))) ms one.0 (ground arith)
        (ground arith) in
    (
      ground (arith, rest.0),
      rest.1 ∙ (ap (λ l. l ++ map relayed ms) one.1 ∙ append_assoc s.to_client _ _),
    )

abbrev pub described : JobResult → List ClientMessage
described j = if j.described then [] else job_id_row_description ∷ []

answered_one :
    (e : Env) (s : Session) (j : JobResult) (c : Message)
    → Waits s j
    → j.preceding_tags ≡ 0
    → c.tag ≡ b'C'
    → ((backend e s c).job ≡ none)
      × ((backend e s c).to_client
          ≡ s.to_client ++ (described j ++ (job_id_data_row j.job_id ∷ relayed c ∷ [])))
unfolding backend
answered_one e s j c w z t = ground (
  arith,
  append_assoc s.to_client (job_id_row_description ∷ []) (job_id_data_row j.job_id ∷ []),
  append_assoc s.to_client (job_id_data_row j.job_id ∷ []) (relayed c ∷ []),
  append_assoc s.to_client (job_id_row_description ∷ job_id_data_row j.job_id ∷ [])
      (relayed c ∷ []),
)

-- In a query of several statements, while nothing but the job claims the upstream's messages, the results of
-- those before the asynchronous one go out as they came, as many CommandComplete messages as the job counts
-- among them; its own CommandComplete is preceded by the job id, and by the row description unless a
-- Describe was answered with it, and then the job is over.
pub job_answers_its_statement :
    (e : Env) (s : Session) (j : JobResult) (ms : List Message) (c : Message)
    → Waits s j
    → all_results ms ≡ true
    → completes ms ≡ j.preceding_tags
    → c.tag ≡ b'C'
    → let t = backend_all e s (ms ++ c ∷ []) in
      (t.job ≡ none)
      × (t.to_client
          ≡ (s.to_client ++ map relayed ms)
            ++ (described j ++ (job_id_data_row j.job_id ∷ relayed c ∷ [])))
unfolding backend_all
job_answers_its_statement e s j ms c w r k t =
    let before = relayed_all e s j ms w r (omega (arith, k)) in
    let own =
      answered_one e (backend_all e s ms) (after_tags j (completes ms)) c before.0
        (omega (arith, k)) t in
    let path : backend_all e s (ms ++ c ∷ []) ≡ backend e (backend_all e s ms) c =
      backend_all-append e s ms (c ∷ []) in
    (
      ap (λ u. u.job) path ∙ own.0,
      ap (λ u. u.to_client) path
          ∙ (own.1
              ∙ ap (λ l. l ++ (described j ++ (job_id_data_row j.job_id ∷ relayed c ∷ [])))
                  before.1),
    )
