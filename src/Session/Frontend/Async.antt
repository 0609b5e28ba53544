-- ===== src/Session/Frontend/Async.antt =====
-- `forwardAsyncJob` of internal/proxy/session.go: a statement whose ASYNC keyword was taken out.
use dsql_emulator.Prelude.{
  ℕ, Bool, true, false, Option, none, some, if◌then◌else◌, List, [], ◌∷◌, ◌++◌, Text,
}
use dsql_emulator.Kind.{Kind, ddl}
use dsql_emulator.Verdict.{Result, rejected}
use dsql_emulator.Wire.{Message, Parse, Frontend}
use dsql_emulator.Rewrite.{job_marker}
use dsql_emulator.Rewrite.JobId.{new_job_id}
use dsql_emulator.Session.State.{Env, Session, StatementInfo, query, parse}
use dsql_emulator.Session.Output.{write_upstream, write_upstream_exchange, forward}
use dsql_emulator.Session.Failure.{reject, reject_failed}
use dsql_emulator.Session.Jobs.{put_statement}
use dsql_emulator.Session.Frontend.Admission.{admitted}

-- The kinds that an asynchronous statement is admitted as.
abbrev pub async_kinds : List Kind → List Kind
async_kinds [] = ddl ∷ []
async_kinds (k ∷ ks) = k ∷ ks

abbrev async_info : List Kind → Text → StatementInfo
async_info kinds id = record { kinds = kinds; tables = []; intent = none; job_id = id }

abbrev pub send_async : Env → Session → Message → Frontend → List Kind → Text → Text → Session
send_async e s msg (Frontend.query q) kinds id marked =
    if e.codec.encodes_query marked then write_upstream_exchange s (query marked) else forward s msg
send_async e s msg (Frontend.parse p) kinds id marked =
    let t = put_statement s p.name (async_info kinds id) in
    let q : Parse = record p { query = marked } in
    if e.codec.encodes_parse q then write_upstream t (parse q) else forward t msg
send_async e s msg _ kinds id marked = forward s msg

unfoldable pub start_job :
    Env → Option Text → Session → Message → Frontend → List Kind → Text → ℕ → Session
unfolding write_upstream_exchange write_upstream put_statement forward
start_job e random s msg front kinds rewritten ordinal =
    let id = new_job_id random in
    send_async e
      (record s {
        job = some (record { described = false; job_id = id; preceding_tags = ordinal });
      })
      msg front kinds id (job_marker id ++ rewritten)

unfoldable pub admit_async :
    Env → ℕ → Option Text → Session → Message → Frontend → List Kind → Text → ℕ → Bool → Session
unfolding start_job reject
admit_async e now random s msg front kinds rewritten ordinal extended =
    if extended
    then start_job e random s msg front kinds rewritten ordinal
    else admitted s kinds now (λ t v. reject t v.code v.message extended)
        λ t. start_job e random t msg front kinds rewritten ordinal

abbrev pub async_classified :
    Env → ℕ → Option Text → Session → Message → Frontend → Option Result → Text → ℕ → Bool → Session
async_classified e now random s msg front none rewritten ordinal extended =
    admit_async e now random s msg front (ddl ∷ []) rewritten ordinal extended
async_classified e now random s msg front (some r) rewritten ordinal extended =
    if rejected r.verdict
    then reject s r.verdict.code r.verdict.message extended
    else admit_async e now random s msg front (async_kinds r.kinds) rewritten ordinal extended

unfoldable pub forward_async_job :
    Env → ℕ → Option Text → Session → Message → Frontend → Text → ℕ → Bool → Session
unfolding reject_failed admit_async reject
forward_async_job e now random s msg front rewritten ordinal extended =
    if s.txn_aborted
    then reject_failed s extended
    else async_classified e now random s msg front (e.classify true rewritten) rewritten ordinal
        extended
