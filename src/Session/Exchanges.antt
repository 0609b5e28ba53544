-- ===== src/Session/Exchanges.antt =====
-- The count of requests that the upstream has not answered, against what was written to it.
use dsql_emulator.Prelude.{
  ℕ, suc, ◌+◌, ◌≤◌, ◌<◌, ◌≡◌, Bool, true, false, ◌||◌, List, [], ◌∷◌, ◌++◌, Option, none, some,
  ◌==◌, if◌then◌else◌, arith, Text, text_eq, text_eq_refl, ◌∙◌, ◌⊎◌,
}
use dsql_emulator.Kind.{Kind}
use dsql_emulator.Occ.{Intent}
use dsql_emulator.Wire.{Message, Parse, Bind}
use dsql_emulator.Session.State.{
  Env, Session, TxnFailure, UpstreamMessage, StatementInfo, forwarded, query, parse, bind, execute,
  sync,
}
use dsql_emulator.Session.Output.{
  write_upstream, write_upstream_exchange, forward, note_batch_state,
}
use dsql_emulator.Session.Failure.{
  reject, reject_failed, begin_failure, begin_pending, abort_transaction_query, rollback_query,
}
use dsql_emulator.Session.Conflict.{occ_failure}
use dsql_emulator.Session.Adjudicator.{establish_savepoint, arm_adjudicator, savepoint_query}
use dsql_emulator.Session.Jobs.{rewrite_sql, put_statement, delete_statement, restore_job}
use dsql_emulator.Session.Frontend.{commit_fails, handle_sync}

-- A request draws one ReadyForQuery: a simple Query or a Sync, the client's or the emulator's own.
abbrev is_request : UpstreamMessage → Bool
is_request (forwarded m) = m.tag == b'Q' || m.tag == b'S'
is_request (query sql) = true
is_request (parse p) = false
is_request (bind b) = false
is_request execute = false
is_request sync = true

unfoldable pub requests : List UpstreamMessage → ℕ
requests [] = 0
requests (m ∷ ms) = let rest = requests ms in if is_request m then suc rest else rest

pub requests-append :
    (xs ys : List UpstreamMessage) → requests (xs ++ ys) ≡ requests xs + requests ys
unfolding requests
requests-append [] ys = omega arith
requests-append (x ∷ xs) ys = ground (arith, requests-append xs ys)

pub requests-query :
    (ups : List UpstreamMessage) (sql : Text)
    → requests (ups ++ query sql ∷ []) ≡ suc (requests ups)
unfolding requests
requests-query ups sql = ground (arith, requests-append ups (query sql ∷ []))

-- The SAVEPOINT queries of the session's own.
abbrev is_savepoint : UpstreamMessage → Bool
unfolding savepoint_query
is_savepoint (query sql) = text_eq sql savepoint_query
is_savepoint _ = false

unfoldable pub savepoints : List UpstreamMessage → ℕ
unfolding savepoint_query
savepoints [] = 0
savepoints (m ∷ ms) = let rest = savepoints ms in if is_savepoint m then suc rest else rest

pub savepoints-append :
    (xs ys : List UpstreamMessage) → savepoints (xs ++ ys) ≡ savepoints xs + savepoints ys
unfolding savepoints
savepoints-append [] ys = omega arith
savepoints-append (x ∷ xs) ys = ground (arith, savepoints-append xs ys)

savepoints-own :
    (ups : List UpstreamMessage)
    → savepoints (ups ++ query savepoint_query ∷ []) ≡ suc (savepoints ups)
unfolding savepoints
savepoints-own ups =
    ground (arith, savepoints-append ups (query savepoint_query ∷ []), text_eq_refl savepoint_query)

requests-parse :
    (ups : List UpstreamMessage) (p : Parse) → requests (ups ++ parse p ∷ []) ≡ requests ups
unfolding requests
requests-parse ups p = ground (arith, requests-append ups (parse p ∷ []))

pub requests-forwarded :
    (ups : List UpstreamMessage) (m : Message)
    → requests (ups ++ forwarded m ∷ [])
      ≡ (if m.tag == b'Q' || m.tag == b'S' then suc (requests ups) else requests ups)
unfolding requests
requests-forwarded ups m = ground (arith, requests-append ups (forwarded m ∷ []))

-- What the steps of a session do alike that leave its tracker alone. The count of unanswered requests
-- grows by those that are written, a hidden exchange that has requests before it stays, and one is started
-- only with a SAVEPOINT of the session's own.
pub record Quiet (s t : Session) : Type 0 where
  pub grown :
      t.pending_exchanges + requests s.to_upstream ≡ s.pending_exchanges + requests t.to_upstream
  pub no_less : s.pending_exchanges ≤ t.pending_exchanges
  pub kept : 0 < s.pending_exchanges → t.hidden ≡ s.hidden
  pub more : savepoints s.to_upstream ≤ savepoints t.to_upstream
  pub fresh :
      (t.hidden ≡ s.hidden)
      ⊎ ((0 < t.pending_exchanges) × (savepoints s.to_upstream < savepoints t.to_upstream))
  pub same_tracker : t.tracker ≡ s.tracker

pub Quiet-trans : (s t u : Session) → Quiet s t → Quiet t u → Quiet s u
Quiet-trans s t u p q = record {
  grown = omega (arith, p.grown, q.grown);
  no_less = omega (arith, p.no_less, q.no_less);
  kept = λ h. q.kept (omega (arith, p.no_less)) ∙ p.kept h;
  more = omega (arith, p.more, q.more);
  fresh = ground (arith, p.fresh, q.fresh, q.no_less, p.more, q.more);
  same_tracker = q.same_tracker ∙ p.same_tracker;
}

pub forward-Quiet : (s : Session) (m : Message) → Quiet s (forward s m)
unfolding forward
forward-Quiet s m =
    ground (
      arith,
      requests-forwarded s.to_upstream m,
      savepoints-append s.to_upstream (forwarded m ∷ []),
    )

pub write_exchange-Quiet :
    (s : Session) (sql : Text) → Quiet s (write_upstream_exchange s (query sql))
unfolding write_upstream_exchange
write_exchange-Quiet s sql =
    ground
      (arith, requests-query s.to_upstream sql, savepoints-append s.to_upstream (query sql ∷ []))

pub write_parse-Quiet : (s : Session) (p : Parse) → Quiet s (write_upstream s (parse p))
unfolding write_upstream
write_parse-Quiet s p =
    ground (arith, requests-parse s.to_upstream p, savepoints-append s.to_upstream (parse p ∷ []))

pub begin_failure-Quiet : (s : Session) (f : TxnFailure) → Quiet s (begin_failure s f)
unfolding begin_failure
begin_failure-Quiet s f = ground (
  arith,
  requests-query s.to_upstream f.statement,
  savepoints-append s.to_upstream (query f.statement ∷ []),
)

pub reject-Quiet :
    (s : Session) (code message : Text) (extended : Bool) → Quiet s (reject s code message extended)
unfolding reject
reject-Quiet s code message extended = ground (
  arith,
  requests-query s.to_upstream abort_transaction_query,
  savepoints-append s.to_upstream (query abort_transaction_query ∷ []),
)

pub reject_failed-Quiet : (s : Session) (extended : Bool) → Quiet s (reject_failed s extended)
unfolding reject_failed
reject_failed-Quiet s extended = ground arith

pub occ_failure-Quiet :
    (e : Env) (s : Session) (extended : Bool) → Quiet s (occ_failure e s extended)
unfolding occ_failure
occ_failure-Quiet e s extended = ground (
  arith,
  requests-query s.to_upstream rollback_query,
  savepoints-append s.to_upstream (query rollback_query ∷ []),
)

pub establish_savepoint-Quiet : (s : Session) → Quiet s (establish_savepoint s).0
unfolding establish_savepoint
establish_savepoint-Quiet s =
    ground (arith, requests-query s.to_upstream savepoint_query, savepoints-own s.to_upstream)

pub arm_adjudicator-Quiet :
    (s : Session) (intent : Option Intent) (b : Option Bind) → Quiet s (arm_adjudicator s intent b)
unfolding arm_adjudicator
arm_adjudicator-Quiet s none b = ground arith
arm_adjudicator-Quiet s (some i) none =
    ground (arith, requests-query s.to_upstream savepoint_query, savepoints-own s.to_upstream)
arm_adjudicator-Quiet s (some i) (some b) =
    ground (arith, requests-query s.to_upstream savepoint_query, savepoints-own s.to_upstream)

pub commit_fails-Quiet : (e : Env) (s : Session) (ks : List Kind) → Quiet s (commit_fails e s ks).0
unfolding commit_fails
commit_fails-Quiet e s ks = ground arith

pub rewrite_sql-Quiet : (e : Env) (s : Session) (sql : Text) → Quiet s (rewrite_sql e s sql).0
unfolding rewrite_sql
rewrite_sql-Quiet e s sql = ground arith

pub put_statement-Quiet :
    (s : Session) (k : Text) (v : StatementInfo) → Quiet s (put_statement s k v)
unfolding put_statement
put_statement-Quiet s k v = ground arith

pub delete_statement-Quiet : (s : Session) (k : Text) → Quiet s (delete_statement s k)
unfolding delete_statement
delete_statement-Quiet s k = ground arith

pub restore_job-Quiet : (s : Session) (id : Text) → Quiet s (restore_job s id)
unfolding restore_job
restore_job-Quiet s id = ground arith

pub note_batch_state-Quiet : (s : Session) (tag : ℕ) → Quiet s (note_batch_state s tag)
unfolding note_batch_state
note_batch_state-Quiet s tag = ground arith

begin_pending-Quiet :
    (s t : Session) (f : Option TxnFailure) → Quiet s t → Quiet s (begin_pending t f)
begin_pending-Quiet s t none q = q
begin_pending-Quiet s t (some f) q = Quiet-trans s t (begin_failure t f) q (begin_failure-Quiet t f)

pub handle_sync-Quiet : (s : Session) (m : Message) → Quiet s (handle_sync s m)
unfolding handle_sync
handle_sync-Quiet s m =
    let s' : Session = record s { pending_failure = none; skip_sync = false } in
    begin_pending-Quiet s (forward s' m) s.pending_failure
      (Quiet-trans s s' (forward s' m) (ground arith) (forward-Quiet s' m))
