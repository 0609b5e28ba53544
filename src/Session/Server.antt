-- ===== src/Session/Server.antt =====
-- Every message of the upstream, whatever the state that it finds.
use dsql_emulator.Prelude.{
  ℕ, suc, ◌+◌, ◌≤◌, ◌<◌, ◌≡◌, List, [], ◌∷◌, ◌++◌, Option, none, some, arith, Text, if-intro,
  is_some, is_nil, ◌⊎◌, ℤ,
}
use dsql_emulator.Session.State.{
  Env, Session, Hidden, InFlight, UpstreamMessage, savepoint, restoring, counting, rows_of,
}
use dsql_emulator.Session.Failure.{abort_transaction_query}
use dsql_emulator.Session.Shadow.{shadow_params, extended_query}
use dsql_emulator.Session.Adjudicator.{
  count_rows, rerun, write_exchange, run_count_shadow, run_rowset_shadow, fail_repair,
  complete_repair, run_shadow, finish_hidden,
}
use dsql_emulator.Session.Exchanges.{requests, requests-append, requests-query}

-- The count of unanswered requests grows by those that are written, and only together with one of them
-- does a hidden exchange begin where there was none.
pub record Serves (s t : Session) : Type 0 where
  pub grown :
      t.pending_exchanges + requests s.to_upstream ≡ s.pending_exchanges + requests t.to_upstream
  pub no_less : s.pending_exchanges ≤ t.pending_exchanges
  pub fresh : (is_some t.hidden ≡ is_some s.hidden) ⊎ (0 < t.pending_exchanges)
  pub same_tracker : t.tracker ≡ s.tracker

fail_repair-Serves : (e : Env) (s : Session) → Serves s (fail_repair e s)
unfolding fail_repair
fail_repair-Serves e s = ground (arith, requests-query s.to_upstream abort_transaction_query)

complete_repair-Serves :
    (s : Session) (f : InFlight) (rows : ℤ) → Serves s (complete_repair s f rows)
unfolding complete_repair
complete_repair-Serves s f rows = ground arith

requests-extended_query :
    (ups : List UpstreamMessage) (sql : Text) (vs : List (Option Text)) (fs rs : List ℕ)
    → requests (ups ++ extended_query sql vs fs rs) ≡ suc (requests ups)
unfolding extended_query requests
requests-extended_query ups sql vs fs rs =
    ground (arith, requests-append ups (extended_query sql vs fs rs))

count_rows-Serves :
    (e : Env) (s : Session) (f : InFlight) (p : Option (List (Option Text) × List ℕ))
    → Serves s (count_rows e s f p)
unfolding write_exchange
count_rows-Serves e s f none = fail_repair-Serves e s
count_rows-Serves e s f (some ([], fs)) =
    ground (arith, requests-query s.to_upstream f.intent.shadow)
count_rows-Serves e s f (some (v ∷ vs, fs)) =
    ground (arith, requests-extended_query s.to_upstream f.intent.shadow (v ∷ vs) fs [])

rerun-Serves :
    (e : Env) (s : Session) (f : InFlight) (p : Option (List (Option Text) × List ℕ))
    → Serves s (rerun e s f p)
unfolding write_exchange
rerun-Serves e s f none = fail_repair-Serves e s
rerun-Serves e s f (some (vs, fs)) = ground (
  arith,
  requests-query s.to_upstream f.intent.shadow,
  requests-extended_query s.to_upstream f.intent.shadow vs fs f.formats,
)

run_shadow-Serves : (e : Env) (s : Session) (f : InFlight) → Serves s (run_shadow e s f)
unfolding run_shadow run_count_shadow run_rowset_shadow
run_shadow-Serves e s f =
    if-intro (Serves s) (is_nil f.intent.shadow) _ _ (λ _. complete_repair-Serves s f f.intent.rows)
      λ _.
        if-intro (Serves s) f.intent.rowset _ _ (λ _. rerun-Serves e s f (shadow_params f))
          λ _. count_rows-Serves e s f (shadow_params f)

pub finish_hidden-Serves : (e : Env) (s : Session) (h : Hidden) → Serves s (finish_hidden e s h)
unfolding finish_hidden
finish_hidden-Serves e s (savepoint failed) = ground arith
finish_hidden-Serves e s (restoring f failed) =
    if-intro (Serves s) failed _ _ (λ _. fail_repair-Serves e s) (λ _. run_shadow-Serves e s f)
finish_hidden-Serves e s (counting f failed rows) =
    if-intro (Serves s) failed _ _ (λ _. fail_repair-Serves e s)
      (λ _. complete_repair-Serves s f rows)
finish_hidden-Serves e s (rows_of f failed) =
    if-intro (Serves s) failed _ _ (λ _. fail_repair-Serves e s) (λ _. ground arith)
