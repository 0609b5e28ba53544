-- ===== src/Session/Steps.antt =====
-- What each message of the client does to the tracker, to the count of unanswered requests and to a
-- hidden exchange.
use dsql_emulator.Prelude.{ℕ, Bool, false, List, [], ◌++◌, Option, none, some, arith, Text}
use dsql_emulator.Kind.{Kind}
use dsql_emulator.Occ.{Intent}
use dsql_emulator.Verdict.{Result}
use dsql_emulator.Wire.{Message, Parse, Bind, Frontend}
use dsql_emulator.Rewrite.{job_marker}
use dsql_emulator.Rewrite.JobId.{new_job_id}
use dsql_emulator.Session.State.{Env, Session, StatementInfo, parse}
use dsql_emulator.Session.Output.{write_upstream, forward}
use dsql_emulator.Session.Conflict.{add_occ_tables, reset_occ, occ_failure}
use dsql_emulator.Session.Adjudicator.{count_txn_statement, arm_adjudicator, establish_savepoint}
use dsql_emulator.Session.Jobs.{rewrite_sql, restore_job, put_statement}
use dsql_emulator.Session.Frontend.{
  send_async, commit_fails, run_admitted, start_job, send_query, remember_parse, send_parse,
  finish_bind,
}
use dsql_emulator.Session.Exchanges.{
  Quiet, Quiet-trans, forward-Quiet, write_exchange-Quiet, write_parse-Quiet, occ_failure-Quiet,
  establish_savepoint-Quiet, arm_adjudicator-Quiet, commit_fails-Quiet, rewrite_sql-Quiet,
  put_statement-Quiet, restore_job-Quiet,
}

counted-Quiet :
    (s : Session) (tables : List Text) (ks : List Kind)
    → Quiet s (count_txn_statement (add_occ_tables s tables) ks)
unfolding count_txn_statement add_occ_tables
counted-Quiet s tables ks = ground arith

reset_occ-Quiet : (s : Session) → Quiet s (reset_occ s)
unfolding reset_occ
reset_occ-Quiet s = ground arith

-- A statement admitted for a simple Query or a Bind, where what comes last is quiet.
pub run_admitted-Quiet :
    (e : Env) (s : Session) (ks : List Kind) (tables : List Text) (intent : Option Intent)
    (b : Option Bind) (extended : Bool) (rest : Session → Session)
    → ((u : Session) → Quiet u (rest u))
    → Quiet s (run_admitted e s ks tables intent b extended rest)
unfolding run_admitted
run_admitted-Quiet e s ks tables intent b extended rest q =
    let s₁ : Session = count_txn_statement (add_occ_tables s tables) ks in
    let t : Session = (commit_fails e s₁ ks).0 in
    let armed : Session = arm_adjudicator s₁ intent b in
    let counted = counted-Quiet s tables ks in
    let decided = Quiet-trans s s₁ t counted (commit_fails-Quiet e s₁ ks) in
    ground (
      arith,
      Quiet-trans s t (occ_failure e t extended) decided (occ_failure-Quiet e t extended),
      Quiet-trans s (reset_occ t) (rest (reset_occ t))
          (Quiet-trans s t (reset_occ t) decided (reset_occ-Quiet t)) (q (reset_occ t)),
      Quiet-trans s armed (rest armed)
          (Quiet-trans s s₁ armed counted (arm_adjudicator-Quiet s₁ intent b)) (q armed),
      Quiet-trans s s₁ (rest s₁) counted (q s₁),
    )

pub send_query-Quiet :
    (e : Env) (s : Session) (m : Message) (sql : Text) → Quiet s (send_query e s m sql)
unfolding send_query
send_query-Quiet e s m sql =
    let (t, rewritten) = rewrite_sql e s sql in
    Quiet-trans s t (send_query e s m sql) (rewrite_sql-Quiet e s sql)
      (ground (arith, forward-Quiet t m, write_exchange-Quiet t rewritten))

pub remember_parse-Quiet :
    (e : Env) (s : Session) (m : Message) (p : Parse) (r : Result)
    → Quiet s (remember_parse e s m p r)
unfolding remember_parse
remember_parse-Quiet e s m p r =
    let v : StatementInfo = record {
      kinds = r.kinds;
      tables = r.tables;
      intent = e.analyze p.query;
      job_id = [];
    } in
    let with_savepoint : Session = (establish_savepoint s).0 in
    let kept = put_statement-Quiet s p.name v in
    let saved =
      Quiet-trans s with_savepoint (put_statement with_savepoint p.name v)
        (establish_savepoint-Quiet s) (put_statement-Quiet with_savepoint p.name v) in
    ground (
      arith,
      Quiet-trans s (put_statement s p.name v) (forward (put_statement s p.name v) m) kept
          (forward-Quiet (put_statement s p.name v) m),
      Quiet-trans s (put_statement with_savepoint p.name v)
          (forward (put_statement with_savepoint p.name v) m) saved
          (forward-Quiet (put_statement with_savepoint p.name v) m),
    )

pub send_parse-Quiet :
    (e : Env) (s : Session) (m : Message) (p : Parse) (r : Result) → Quiet s (send_parse e s m p r)
unfolding send_parse
send_parse-Quiet e s m p r =
    let (t, rewritten) = rewrite_sql e s p.query in
    let q : Parse = record p { query = rewritten } in
    let v : StatementInfo = record {
      kinds = r.kinds;
      tables = r.tables;
      intent = none;
      job_id = [];
    } in
    Quiet-trans s t (send_parse e s m p r) (rewrite_sql-Quiet e s p.query) (
      ground (
        arith,
        remember_parse-Quiet e t m p r,
        remember_parse-Quiet e t m q r,
        Quiet-trans t (put_statement t p.name v)
            (write_upstream (put_statement t p.name v) (parse q)) (put_statement-Quiet t p.name v)
            (write_parse-Quiet (put_statement t p.name v) q),
      ))

pub finish_bind-Quiet :
    (info : StatementInfo) (m : Message) (s : Session) → Quiet s (finish_bind info m s)
unfolding finish_bind
finish_bind-Quiet info m s =
    let t : Session = restore_job s info.job_id in
    ground (
      arith,
      forward-Quiet s m,
      Quiet-trans s t (forward t m) (restore_job-Quiet s info.job_id) (forward-Quiet t m),
    )

send_async-Quiet :
    (e : Env) (s : Session) (m : Message) (front : Frontend) (ks : List Kind) (id marked : Text)
    → Quiet s (send_async e s m front ks id marked)
send_async-Quiet e s m (Frontend.query sql) ks id marked =
    ground (arith, forward-Quiet s m, write_exchange-Quiet s marked)
send_async-Quiet e s m (Frontend.parse p) ks id marked =
    let v : StatementInfo = record { kinds = ks; tables = []; intent = none; job_id = id } in
    let t : Session = put_statement s p.name v in
    let q : Parse = record p { query = marked } in
    let kept = put_statement-Quiet s p.name v in
    ground (
      arith,
      Quiet-trans s t (forward t m) kept (forward-Quiet t m),
      Quiet-trans s t (write_upstream t (parse q)) kept (write_parse-Quiet t q),
    )
send_async-Quiet e s m (Frontend.bind b) ks id marked = forward-Quiet s m
send_async-Quiet e s m (Frontend.close c) ks id marked = forward-Quiet s m
send_async-Quiet e s m (Frontend.plain t) ks id marked = forward-Quiet s m

pub start_job-Quiet :
    (e : Env) (random : Option Text) (s : Session) (m : Message) (front : Frontend) (ks : List Kind)
    (rewritten : Text) (ordinal : ℕ)
    → Quiet s (start_job e random s m front ks rewritten ordinal)
unfolding start_job
start_job-Quiet e random s m front ks rewritten ordinal =
    let id : Text = new_job_id random in
    let armed : Session = record s {
      job = some (record { described = false; job_id = id; preceding_tags = ordinal });
    } in
    Quiet-trans s armed (start_job e random s m front ks rewritten ordinal) (ground arith)
      (send_async-Quiet e armed m front ks id (job_marker id ++ rewritten))
