-- ===== src/Session/Jobs.antt =====
-- internal/proxy/session.go: the job id that answers an asynchronous statement, the statements that are
-- rewritten to report another version, and the prepared statements.
use dsql_emulator.Prelude.{
  ◌-◌, Bool, true, false, List, [], ◌∷◌, ◌++◌, Option, none, some, ltb, if◌then◌else◌, Text, lit,
  is_nil, text_eq, plain_spaces, trim_space, trim_semicolon, to_lower, fields, join_spaced,
}
use dsql_emulator.Wire.{Message, ParameterStatus}
use dsql_emulator.Rewrite.{server_version_num}
use dsql_emulator.Session.State.{
  Env, Session, JobResult, StatementInfo, command_complete, parameter_status,
}
use dsql_emulator.Session.Output.{write_client}

abbrev set_described : Session → Option JobResult → Session × Bool
set_described s none = (s, false)
set_described s (some j) =
    if j.described
    then (s, false)
    else (record s { job = some (record j { described = true }) }, true)

unfoldable pub mark_job_described : Session → Session × Bool
mark_job_described s = set_described s s.job

abbrev claim : Session → Option JobResult → Session × Option JobResult
claim s none = (s, none)
claim s (some j) =
    if ltb 0 j.preceding_tags
    then (record s { job = some (record j { preceding_tags = j.preceding_tags - 1 }) }, none)
    else (record s { job = none }, some j)

unfoldable pub claim_job : Session → Session × Option JobResult
claim_job s = claim s s.job

unfoldable pub take_job : Session → Session
take_job s = record s { job = none }

abbrev rearm : Session → Text → Option JobResult → Session
rearm s id none = record s {
  job = some (record { described = false; job_id = id; preceding_tags = 0 });
}
rearm s id (some j) = s

unfoldable pub restore_job : Session → Text → Session
restore_job s id = rearm s id s.job

abbrev set_tag : Session → Text → Bool → Session × Bool
set_tag s tag decodes =
    if is_nil tag
    then (s, false)
    else if decodes
    then (write_client s (command_complete tag), true)
    else (s, false)

-- The result tells whether the CommandComplete was answered.
unfoldable pub rewrite_command_tag : Env → Session → Message → Session × Bool
unfolding write_client
rewrite_command_tag e s msg =
    set_tag (record s { pending_command_tag = [] }) s.pending_command_tag
      (e.codec.decodes_complete msg.body)

abbrev set_version : Env → Session → Option ParameterStatus → Session × Bool
set_version e s none = (s, false)
set_version e s (some p) =
    let q : ParameterStatus = record p { value = e.server_version } in
    if text_eq p.name (lit "server_version")
    then (if e.codec.encodes_status q
        then (write_client s (parameter_status q), true)
        else (s, false))
    else (s, false)

unfoldable pub rewrite_parameter_status : Env → Session → Message → Session × Bool
unfolding write_client
rewrite_parameter_status e s msg =
    if is_nil e.server_version then (s, false) else set_version e s (e.codec.decode_status msg.body)

unfoldable pub statement_key : Text → Text
statement_key sql = join_spaced (fields (to_lower (trim_semicolon (trim_space (plain_spaces sql)))))

abbrev literal_as : Text → Text → Text
literal_as value name = lit "SELECT '" ++ (value ++ (lit "' AS " ++ name))

-- The empty text where the statement needs no change.
unfoldable pub rewrite_sql : Env → Session → Text → Session × Text
rewrite_sql e s sql =
    let key = statement_key sql in
    let num = server_version_num e.server_version in
    let shown : Session = record s { pending_command_tag = lit "SHOW" } in
    if text_eq key (lit "select version()")
    then (s, literal_as (lit "PostgreSQL 16") (lit "version"))
    else if text_eq key (lit "show server_version")
    then (shown, literal_as e.server_version (lit "server_version"))
    else if text_eq key (lit "select current_setting('server_version')")
    then (s, literal_as e.server_version (lit "current_setting"))
    else if text_eq key (lit "select current_setting('server_version_num')")
    then (s, literal_as num (lit "current_setting"))
    else if text_eq key (lit "show server_version_num")
    then (shown, literal_as num (lit "server_version_num"))
    else (s, [])

-- The map from the names of prepared statements.
unfoldable pub find_statement : Text → List (Text × StatementInfo) → Option StatementInfo
find_statement k [] = none
find_statement k ((j, v) ∷ m) = if text_eq j k then some v else find_statement k m

unfoldable pub remove_statement : Text → List (Text × StatementInfo) → List (Text × StatementInfo)
remove_statement k [] = []
remove_statement k ((j, v) ∷ m) =
    let rest = remove_statement k m in if text_eq j k then rest else (j, v) ∷ rest

unfoldable pub put_statement : Session → Text → StatementInfo → Session
unfolding remove_statement
put_statement s k v = record s { statements = (k, v) ∷ remove_statement k s.statements }

unfoldable pub delete_statement : Session → Text → Session
unfolding remove_statement
delete_statement s k = record s { statements = remove_statement k s.statements }
