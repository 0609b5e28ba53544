-- ===== src/Session/Tracked.antt =====
-- Each message of the client: its effect on the tracker, on the count of unanswered requests and on a
-- hidden exchange.
use dsql_emulator.Prelude.{
  ℕ, ◌+◌, ◌≤◌, ◌<◌, ◌≡◌, Bool, true, false, List, [], ◌∷◌, Option, none, some, arith, Text, ◌∙◌,
  Option-cases, inl, inr, ◌⊎◌,
}
use dsql_emulator.Kind.{Kind, ddl, rollback}
use dsql_emulator.Txn.{Violation, admit}
use dsql_emulator.Verdict.{Result}
use dsql_emulator.Wire.{Message, Frontend}
use dsql_emulator.Session.State.{Env, Session}
use dsql_emulator.Session.Output.{forward}
use dsql_emulator.Session.Failure.{reject}
use dsql_emulator.Session.Frontend.{
  admitted, end_aborted, run_admitted, admit_async, forward_async_job, send_query, query_plain,
  async_classified, async_kinds, query_classified,
}
use dsql_emulator.Session.Exchanges.{
  requests, savepoints, Quiet, forward-Quiet, reject-Quiet, reject_failed-Quiet,
}
use dsql_emulator.Session.Steps.{run_admitted-Quiet, send_query-Quiet, start_job-Quiet}

-- As `Quiet`, but that the tracker may have been given one batch to admit.
pub record Follows (s t : Session) : Type 0 where
  pub grown :
      t.pending_exchanges + requests s.to_upstream ≡ s.pending_exchanges + requests t.to_upstream
  pub no_less : s.pending_exchanges ≤ t.pending_exchanges
  pub kept : 0 < s.pending_exchanges → t.hidden ≡ s.hidden
  pub more : savepoints s.to_upstream ≤ savepoints t.to_upstream
  pub fresh :
      (t.hidden ≡ s.hidden)
      ⊎ ((0 < t.pending_exchanges) × (savepoints s.to_upstream < savepoints t.to_upstream))
  pub tracked :
      (t.tracker ≡ s.tracker)
      ⊎ ((ks : List Kind) × (now : ℕ) × (t.tracker ≡ (admit s.tracker ks now).0))

pub of_Quiet : (s t : Session) → Quiet s t → Follows s t
of_Quiet s t q = record {
  grown = q.grown;
  no_less = q.no_less;
  kept = q.kept;
  more = q.more;
  fresh = q.fresh;
  tracked = inl q.same_tracker;
}

-- One batch given to the tracker, and then a quiet step.
of_admitted :
    (s t : Session) (ks : List Kind) (now : ℕ)
    → Quiet (record s { tracker = (admit s.tracker ks now).0 }) t
    → Follows s t
of_admitted s t ks now q = record {
  grown = q.grown;
  no_less = q.no_less;
  kept = q.kept;
  more = q.more;
  fresh = q.fresh;
  tracked = inr (ks, now, q.same_tracker);
}

pub then-Quiet : (s t u : Session) → Follows s t → Quiet t u → Follows s u
then-Quiet s t u p q = record {
  grown = omega (arith, p.grown, q.grown);
  no_less = omega (arith, p.no_less, q.no_less);
  kept = λ h. q.kept (omega (arith, p.no_less)) ∙ p.kept h;
  more = omega (arith, p.more, q.more);
  fresh = ground (arith, p.fresh, q.fresh, q.no_less, p.more, q.more);
  tracked = elim p.tracked [
    | inl e ↦ inl (q.same_tracker ∙ e)
    | inr (ks, now, e) ↦ inr (ks, now, q.same_tracker ∙ e)
  ];
}

pub admitted-Follows :
    (s : Session) (ks : List Kind) (now : ℕ) (refused : Session → Violation → Session)
    (accepted : Session → Session)
    → ((t : Session) (v : Violation) → Quiet t (refused t v))
    → ((t : Session) → Quiet t (accepted t))
    → Follows s (admitted s ks now refused accepted)
admitted-Follows s ks now refused accepted r a = elim (Option-cases (admit s.tracker ks now).1) [
  | inl e ↦
      of_admitted s _ ks now
        (rw (e, admitted) (a (record s { tracker = (admit s.tracker ks now).0 })))
  | inr (v, e) ↦
      of_admitted s _ ks now
        (rw (e, admitted) (r (record s { tracker = (admit s.tracker ks now).0 }) v))
]

end_aborted-Follows : (s : Session) (now : ℕ) → Follows s (end_aborted s now)
unfolding end_aborted
end_aborted-Follows s now = of_admitted s _ (rollback ∷ []) now (ground arith)

admit_async-Follows :
    (e : Env) (now : ℕ) (random : Option Text) (s : Session) (m : Message) (front : Frontend)
    (ks : List Kind) (rewritten : Text) (ordinal : ℕ) (extended : Bool)
    → Follows s (admit_async e now random s m front ks rewritten ordinal extended)
unfolding admit_async
admit_async-Follows e now random s m front ks rewritten ordinal true =
    of_Quiet s _ (start_job-Quiet e random s m front ks rewritten ordinal)
admit_async-Follows e now random s m front ks rewritten ordinal false =
    admitted-Follows s ks now _ _ (λ t v. reject-Quiet t v.code v.message false)
      λ t. start_job-Quiet e random t m front ks rewritten ordinal

async_classified-Follows :
    (e : Env) (now : ℕ) (random : Option Text) (s : Session) (m : Message) (front : Frontend)
    (r : Option Result) (rewritten : Text) (ordinal : ℕ) (extended : Bool)
    → Follows s (async_classified e now random s m front r rewritten ordinal extended)
async_classified-Follows e now random s m front none rewritten ordinal extended =
    admit_async-Follows e now random s m front (ddl ∷ []) rewritten ordinal extended
async_classified-Follows e now random s m front (some r) rewritten ordinal extended = ground (
  arith,
  of_Quiet s _ (reject-Quiet s r.verdict.code r.verdict.message extended),
  admit_async-Follows e now random s m front (async_kinds r.kinds) rewritten ordinal extended,
)

pub forward_async_job-Follows :
    (e : Env) (now : ℕ) (random : Option Text) (s : Session) (m : Message) (front : Frontend)
    (rewritten : Text) (ordinal : ℕ) (extended : Bool)
    → Follows s (forward_async_job e now random s m front rewritten ordinal extended)
unfolding forward_async_job
forward_async_job-Follows e now random s m front rewritten ordinal extended = ground (
  arith,
  of_Quiet s _ (reject_failed-Quiet s extended),
  async_classified-Follows e now random s m front (e.classify true rewritten) rewritten ordinal
      extended,
)

pub end_forward-Follows :
    (s : Session) (now : ℕ) (m : Message) → Follows s (forward (end_aborted s now) m)
end_forward-Follows s now m =
    then-Quiet s (end_aborted s now) _ (end_aborted-Follows s now)
      (forward-Quiet (end_aborted s now) m)

query_classified-Follows :
    (e : Env) (now : ℕ) (s : Session) (m : Message) (sql : Text) (r : Option Result)
    → Follows s (query_classified e now s m sql r)
query_classified-Follows e now s m sql none = of_Quiet s _ (forward-Quiet s m)
query_classified-Follows e now s m sql (some r) = ground (
  arith,
  of_Quiet s _ (reject-Quiet s r.verdict.code r.verdict.message false),
  admitted-Follows s r.kinds now (λ t v. reject t v.code v.message false)
      (λ t.
        run_admitted e t r.kinds r.tables (e.analyze sql) none false (λ u. send_query e u m sql))
      (λ t v. reject-Quiet t v.code v.message false)
      (λ t.
        run_admitted-Quiet e t r.kinds r.tables (e.analyze sql) none false
          (λ u. send_query e u m sql) (λ u. send_query-Quiet e u m sql)),
)

pub query_plain-Follows :
    (e : Env) (now : ℕ) (s : Session) (m : Message) (sql : Text)
    → Follows s (query_plain e now s m sql)
unfolding query_plain
query_plain-Follows e now s m sql = ground (
  arith,
  end_forward-Follows s now m,
  of_Quiet s _ (reject_failed-Quiet s false),
  query_classified-Follows e now s m sql (e.classify false sql),
)
