-- ===== src/Session/Witnesses.antt =====
-- The theorems on internal/proxy/session.go and adjudicator.go at the sessions of the tests.
use dsql_emulator.Prelude.{
  ℤ, Text, Option, some, Bool, ℕ, ◌≡◌, refl, true, false, List, [], ◌∷◌, ◌++◌, map, none, lit,
  text_eq, pos, if◌then◌else◌,
}
use dsql_emulator.Kind.{commit, is_commit}
use dsql_emulator.Verdict.{Result}
use dsql_emulator.Txn.{new, admit, check, has_rollback, too_old, note_all, note, settle}
use dsql_emulator.Occ.{command_tag, is_conflict, code_lock_timeout, code_serialization}
use dsql_emulator.Wire.{Message, decode_frontend}
use dsql_emulator.Rewrite.{strip_async}
use dsql_emulator.Session.State.{
  Session, InFlight, TxnFailure, JobResult, command_complete, ready_for_query, error_response,
  query, relayed, job_id_data_row,
}
use dsql_emulator.Session.Output.{own_error}
use dsql_emulator.Session.Failure.{abort_transaction_query, rollback_query}
use dsql_emulator.Session.Conflict.{inject, conflict_code, conflict_message}
use dsql_emulator.Session.Shadow.{shadow_params}
use dsql_emulator.Session.Adjudicator.{rollback_to_query}
use dsql_emulator.Session.Backend.{backend, backend_all}
use dsql_emulator.Session.Frontend.{frontend, handle_query}
use dsql_emulator.Session.Sample.{
  env, limits, new_session, ask, message, ready_with, classify_sample, update_intent, every_third,
}
use dsql_emulator.Session.Swallow.{readies, failure_completes}
use dsql_emulator.Session.Tracked.{Follows}
use dsql_emulator.Session.Client.{frontend-Follows}
use dsql_emulator.Session.Served.{Served, served, backend-Served}
use dsql_emulator.Session.Interleaving.{start, client, server, Inv, Reach-Inv}
use dsql_emulator.Session.Refusal.{IsRefused, refused_in_txn}
use dsql_emulator.Session.Injection.{any_due, counts_it, inject-any_due}
use dsql_emulator.Session.Commit.{IsDoomedCommit, doomed_commit}
use dsql_emulator.Session.Deferral.{IsRefusedLock, has_error, last_count}
use dsql_emulator.Session.Repair.{IsCounted}
use dsql_emulator.Session.Handshake.{Opener, handshake, is_startup, intercepted, relayed_only}
use dsql_emulator.Session.Negotiation.{IsOpenedBy, answers, handshake_opens}
use dsql_emulator.Wire.Framing.{Startup}
use dsql_emulator.Occ.Renumber.{renumber_params, collect, has, sort, insert, place}
use dsql_emulator.Occ.Positions.{nth}
use dsql_emulator.Session.Shadow.{pick_params, bind_format}
use dsql_emulator.Session.ShadowValues.{format_at, bound_at, renumbered_values}
use dsql_emulator.Session.Answered.{Answer, IsRepaired, messages, refused_lock_answered}
use dsql_emulator.Session.JobAnswer.{
  Waits, all_results, completes, described, is_result, job_answers_its_statement,
}

abbrev fresh : Session
unfolding new_session new
fresh = new_session limits

-- A transaction is open, and the upstream owes nothing.
abbrev opened : Session
opened = record fresh {
  tracker = record {
    limits = limits;
    in_txn = true;
    began_at = some 7;
    ddl_count = 0;
    dml_seen = false;
  };
  tx_status = b'T';
}

abbrev update : InFlight
update = record {
  intent = update_intent;
  extended = false;
  formats = [];
  params = [];
  param_formats = [];
}

-- The UPDATE has been sent, with a savepoint before it.
abbrev waiting : Session
waiting = record opened {
  occ_savepoint = true;
  occ_txn_statements = 1;
  occ_in_flight = some update;
  pending_exchanges = 1;
}

abbrev lock_refused : Message
lock_refused = message b'E' (lit "55P03")

abbrev answer : Answer
answer = record {
  error = lock_refused;
  after_error = [];
  failed = ready_with b'E';
  restored = message b'C' (lit "ROLLBACK") ∷ [];
  restore_ready = ready_with b'T';
  shadow = message b'D' (lit "2") ∷ message b'C' (lit "SELECT 1") ∷ [];
  shadow_ready = ready_with b'T';
}

waiting-IsRefusedLock : IsRefusedLock env waiting lock_refused update
unfolding lit is_conflict code_lock_timeout code_serialization text_eq new_session new
waiting-IsRefusedLock = record {
  tag = refl;
  conflict = refl;
  saved = refl;
  in_txn = refl;
  in_flight = refl;
  unrepaired = refl;
  stage = record { hidden = refl; failure = refl; pending = refl };
}

update-IsCounted : IsCounted update
unfolding shadow_params lit
update-IsCounted = record { shadow = refl; counted = refl; params = refl }

answer-IsRepaired : IsRepaired env answer b'E'
unfolding readies has_error
answer-IsRepaired = record {
  after_error_open = refl;
  failed_ready = refl;
  failed_status = refl;
  restored_open = refl;
  restored_fine = refl;
  restored_ready = refl;
  shadow_open = refl;
  shadow_fine = refl;
  shadow_ended = refl;
}

refused_lock_answered_example :
    let t = backend_all env waiting (messages answer) in
    (t.to_client
      ≡ (waiting.to_client
          ++ command_complete (command_tag update_intent (last_count env answer.shadow (pos 0)))
            ∷ [])
        ++ ready_for_query b'T' ∷ [])
    × (t.to_upstream
        ≡ (waiting.to_upstream ++ query rollback_to_query ∷ [])
          ++ query (lit "SELECT count(*) FROM t") ∷ [])
    × (t.occ_doomed ≡ true)
    × (t.tx_status ≡ b'T')
    × (t.hidden ≡ none)
refused_lock_answered_example =
    refused_lock_answered env waiting update answer b'E' waiting-IsRefusedLock update-IsCounted
      answer-IsRepaired

-- The transaction that a refused lock has doomed.
abbrev doomed : Session
doomed = record opened { occ_savepoint = true; occ_doomed = true; occ_txn_statements = 1 }

abbrev commit_result : Result
commit_result = record {
  verdict = record { rule_id = []; code = []; message = [] };
  kinds = commit ∷ [];
  tables = [];
}

doomed-IsDoomedCommit :
    IsDoomedCommit env 9 doomed (ask (lit "COMMIT")) (lit "COMMIT") commit_result
unfolding lit decode_frontend strip_async new_session new classify_sample text_eq admit settle check
    has_rollback too_old note_all note is_commit
doomed-IsDoomedCommit = record {
  reads = refl;
  plain = refl;
  healthy = refl;
  classified = refl;
  accepted = refl;
  admits = refl;
  commits = refl;
  doomed = refl;
  settled = refl;
  alone = refl;
}

-- What the upstream answers a ROLLBACK with, before its ReadyForQuery.
abbrev rolled_back : List Message
rolled_back = message b'C' (lit "ROLLBACK") ∷ []

none_ready : readies rolled_back ≡ 0
unfolding readies
none_ready = refl

doomed_commit_example :
    let t = handle_query env 9 none doomed (ask (lit "COMMIT")) in
    let u = backend_all env t (rolled_back ++ ready_with b'I' ∷ []) in
    (t.to_upstream ≡ doomed.to_upstream ++ query rollback_query ∷ [])
    × (t.occ_doomed ≡ false)
    × (u.to_client
        ≡ doomed.to_client
          ++ (error_response
                (own_error (conflict_code env.rules.occ) (conflict_message env.rules.occ))
              ∷ ready_for_query b'I'
              ∷ []))
    × (u.failure ≡ none)
    × (u.txn_aborted ≡ false)
doomed_commit_example =
    doomed_commit env 9 none doomed (ask (lit "COMMIT")) (lit "COMMIT") commit_result rolled_back
      (ready_with b'I') doomed-IsDoomedCommit none_ready refl

abbrev truncate_result : Result
truncate_result = record {
  verdict = record { rule_id = lit "truncate"; code = lit "0A000"; message = lit "unsupported" };
  kinds = [];
  tables = [];
}

opened-IsRefused : IsRefused env opened (ask (lit "TRUNCATE")) (lit "TRUNCATE") truncate_result
unfolding lit decode_frontend strip_async new_session new classify_sample text_eq
opened-IsRefused = record {
  reads = refl;
  plain = refl;
  classified = refl;
  refused = refl;
  in_txn = refl;
  healthy = refl;
  settled = refl;
  alone = refl;
}

refused_in_txn_example :
    let t = handle_query env 9 none opened (ask (lit "TRUNCATE")) in
    let u = backend_all env t (message b'E' (lit "22012") ∷ ready_with b'E' ∷ []) in
    (t.to_upstream ≡ opened.to_upstream ++ query abort_transaction_query ∷ [])
    × (t.tracker ≡ opened.tracker)
    × (u.to_client
        ≡ opened.to_client
          ++ (error_response (own_error (lit "0A000") (lit "unsupported"))
              ∷ ready_for_query b'E'
              ∷ []))
    × (u.failure ≡ none)
    × (u.txn_aborted ≡ true)
unfolding readies
refused_in_txn_example =
    refused_in_txn env 9 none opened (ask (lit "TRUNCATE")) (lit "TRUNCATE") truncate_result
      (message b'E' (lit "22012") ∷ []) (ready_with b'E') opened-IsRefused refl refl

Reach-Inv_example :
    Inv
      (backend env (frontend env 7 none (new_session limits) (ask (lit "BEGIN"))) (ready_with b'T'))
Reach-Inv_example =
    Reach-Inv env limits (server (client start 7 none (ask (lit "BEGIN"))) (ready_with b'T'))

frontend-Follows_example : Follows opened (frontend env 9 none opened (ask (lit "UPDATE t")))
frontend-Follows_example = frontend-Follows env 9 none opened (ask (lit "UPDATE t"))

backend-Served_example : Served true (served true waiting) (backend env waiting (ready_with b'T'))
backend-Served_example = backend-Served env waiting (ready_with b'T')

abbrev aborting : TxnFailure
aborting = record { statement = abort_transaction_query; status = b'E'; swallow = 2 }

-- A failure that has two answers to wait for.
abbrev failing : Session
failing = record opened { failure = some aborting; pending_exchanges = 2 }

abbrev first_answer : List Message
first_answer = message b'C' (lit "UPDATE 1") ∷ ready_with b'T' ∷ []

failure_completes_example :
    let t = backend_all env failing (first_answer ++ ready_with b'E' ∷ []) in
    (t.to_client ≡ failing.to_client ++ ready_for_query b'E' ∷ [])
    × (t.failure ≡ none)
    × (t.txn_aborted ≡ failing.txn_aborted)
unfolding readies
failure_completes_example =
    failure_completes env failing aborting first_answer (ready_with b'E')
      (record { failing = refl; alone = unfold new_session in refl }) refl
      (unfold new_session in refl)

abbrev job : JobResult
job = record { described = false; job_id = lit "id"; preceding_tags = 1 }

abbrev asynchronous : Session
asynchronous = record fresh { job = some job; pending_exchanges = 1 }

asynchronous-Waits : Waits asynchronous job
unfolding new_session
asynchronous-Waits = record {
  job = refl;
  alone = refl;
  healthy = refl;
  unrepaired = refl;
  untagged = refl;
}

abbrev earlier : List Message
earlier = message b'T' [] ∷ message b'D' (lit "1") ∷ message b'C' (lit "SELECT 1") ∷ []

job_answers_its_statement_example :
    let t = backend_all env asynchronous (earlier ++ message b'C' (lit "CREATE INDEX") ∷ []) in
    (t.job ≡ none)
    × (t.to_client
        ≡ (asynchronous.to_client ++ map relayed earlier)
          ++ (described job
              ++ (job_id_data_row (lit "id") ∷ relayed (message b'C' (lit "CREATE INDEX")) ∷ [])))
unfolding all_results is_result completes
job_answers_its_statement_example =
    job_answers_its_statement env asynchronous job earlier (message b'C' (lit "CREATE INDEX"))
      asynchronous-Waits refl refl refl

-- Two rules for each third commit, of which the first fails this one: the second does not count it.
inject-any_due_example :
    ((inject (lit "t" ∷ []) 0 (every_third ∷ every_third ∷ []) (λ i. 2)).1
      ≡ any_due (lit "t" ∷ []) 0 (every_third ∷ every_third ∷ []) (λ i. 2))
    × ((inject (lit "t" ∷ []) 0 (every_third ∷ every_third ∷ []) (λ i. 2)).0 1
        ≡ (if counts_it (lit "t" ∷ []) 0 (every_third ∷ every_third ∷ []) (λ i. 2) 1 then 3 else 2))
inject-any_due_example = inject-any_due (lit "t" ∷ []) 0 (every_third ∷ every_third ∷ []) (λ i. 2) 1

abbrev opener : Opener
opener = record {
  rules = env.rules;
  codec = record { decode = λ s. none; encode = λ m. none };
  has_tls = false;
}

abbrev opening_of : ℕ → Startup
opening_of code = record { code = pos code; body = []; raw = 0 ∷ 0 ∷ 0 ∷ 8 ∷ [] }

-- A client that asks for GSS, for TLS, and then starts.
abbrev requests : List (Startup × Bool)
requests = (opening_of 80877104, true) ∷ (opening_of 80877103, true) ∷ []

handshake_opens_example :
    let r = handshake opener (requests ++ (opening_of 196608, true) ∷ []) in
    (r.to_client ≡ answers opener requests)
    × ((bytes : Text) × (r.to_upstream ≡ bytes ∷ []) × IsOpenedBy opener (opening_of 196608) bytes)
    × (r.outcome ≡ (if is_startup (pos 196608) then intercepted else relayed_only))
handshake_opens_example =
    handshake_opens opener requests (opening_of 196608) true []
      (record { request = refl; secured = refl }, (record { request = refl; secured = refl }, tt))
      refl refl

-- A statement that refers to $3, $1 and $3 again, and three bound values.
abbrev refs : List ℤ
refs = pos 3 ∷ pos 1 ∷ pos 3 ∷ []

abbrev renumbered : List ℤ × List ℕ
renumbered = (pos 1 ∷ pos 3 ∷ [], 2 ∷ 1 ∷ 2 ∷ [])

abbrev bound : List (Option Text)
bound = some (lit "a") ∷ none ∷ some (lit "c") ∷ []

abbrev picked : List (Option Text) × List ℕ
picked = (some (lit "a") ∷ some (lit "c") ∷ [], 1 ∷ 1 ∷ [])

renumbered_values_example :
    (map (nth picked.0) renumbered.1 ≡ map (bound_at bound) refs)
    × (map (nth picked.1) renumbered.1 ≡ map (format_at (1 ∷ [])) refs)
unfolding renumber_params collect has sort insert place pick_params bind_format
renumbered_values_example = renumbered_values refs renumbered bound (1 ∷ []) picked refl refl
