-- ===== src/Session/Backend.antt =====
-- `pumpBackend` of internal/proxy/session.go: one message of the upstream.
use dsql_emulator.Prelude.{
  ℕ, Bool, true, false, not, ◌&&◌, Option, none, some, ◌==◌, if◌then◌else◌, is_some, List, [], ◌∷◌,
}
use dsql_emulator.Wire.{Message}
use dsql_emulator.Session.State.{
  Env, Session, Hidden, JobResult, relayed, job_id_row_description, job_id_data_row,
}
use dsql_emulator.Session.Output.{write_client, end_exchange}
use dsql_emulator.Session.Failure.{consume_failure_message}
use dsql_emulator.Session.Conflict.{rewrite_conflict_error}
use dsql_emulator.Session.Adjudicator.{consume_hidden, occ_intercept, start_repair, note_tx_status}
use dsql_emulator.Session.Jobs.{
  mark_job_described, take_job, claim_job, rewrite_command_tag, rewrite_parameter_status,
}

-- What follows a step that may have answered the message.
abbrev pub unless {ℓ} : {A : Type ℓ} → Session × Bool → (Session → A) → (Session → A) → A
unless (s, true) answered rest = answered s
unless (s, false) answered rest = rest s

unfoldable pub relay : Session → Message → Session
unfolding write_client
relay s msg = write_client s (relayed msg)

-- NoData: the answer to the Describe of an asynchronous statement.
unfoldable pub on_no_data : Session → Message → Session
unfolding relay mark_job_described
on_no_data s msg =
    unless (mark_job_described s) (λ t. write_client t job_id_row_description) (λ t. relay t msg)

unfoldable pub on_error : Env → Session → Message → Session
unfolding take_job occ_intercept rewrite_conflict_error relay
on_error e s msg =
    unless (occ_intercept e (take_job s) msg) (λ t. t)
      λ t. unless (rewrite_conflict_error e t msg) (λ u. u) (λ u. relay u msg)

unfoldable pub on_parameter_status : Env → Session → Message → Session
unfolding rewrite_parameter_status relay
on_parameter_status e s msg = unless (rewrite_parameter_status e s msg) (λ t. t) (λ t. relay t msg)

abbrev pub ready : Session → Message → Option ℕ → Session
ready s msg none = relay s msg
ready s msg (some status) =
    unless (start_repair s) (λ t. t)
      λ t. relay (note_tx_status (record t { tx_status = status }) status) msg

unfoldable pub on_ready : Env → Session → Message → Session
unfolding take_job start_repair note_tx_status relay
on_ready e s msg = ready (take_job s) msg (e.codec.decode_ready msg.body)

abbrev pub with_job : Session × Option JobResult → Message → Session
with_job (s, none) msg = relay s msg
with_job (s, some j) msg =
    let t = if j.described then s else write_client s job_id_row_description in
    relay (write_client t (job_id_data_row j.job_id)) msg

unfoldable pub on_complete : Env → Session → Message → Session
unfolding rewrite_command_tag claim_job relay
on_complete e s msg =
    unless (rewrite_command_tag e s msg) (λ t. t) (λ t. with_job (claim_job t) msg)

-- The messages that reach the client's own exchange.
unfoldable pub on_message : Env → Session → Message → Session
unfolding on_no_data on_error on_parameter_status on_ready on_complete relay
on_message e s msg =
    if msg.tag == b'n'
    then on_no_data s msg
    else if msg.tag == b'E'
    then on_error e s msg
    else if msg.tag == b'S'
    then on_parameter_status e s msg
    else if msg.tag == b'Z'
    then on_ready e s msg
    else if msg.tag == b'C'
    then on_complete e s msg
    else relay s msg

abbrev pub own_or_client : Env → Session → Message → Option Hidden → Session
own_or_client e s msg (some h) = consume_hidden e s h msg
own_or_client e s msg none =
    if is_some s.failure
    then consume_failure_message s msg
    else if not (msg.tag == b'Z') && is_some s.occ_repair
    then s
    else on_message e s msg

unfoldable pub backend : Env → Session → Message → Session
unfolding end_exchange consume_hidden consume_failure_message on_message
backend e s msg =
    let t = if msg.tag == b'Z' then end_exchange s else s in own_or_client e t msg t.hidden

unfoldable pub backend_all : Env → Session → List Message → Session
backend_all e s [] = s
backend_all e s (msg ∷ msgs) = backend_all e (backend e s msg) msgs
