-- ===== src/Session/Served.antt =====
-- One message of the upstream: its effect on the count of unanswered requests, on the tracker and on a
-- hidden exchange.
use dsql_emulator.Prelude.{
  ◌+◌, ◌≤◌, ◌<◌, ◌≡◌, Bool, true, false, none, some, ◌==◌, if◌then◌else◌, arith, if-intro, is_some,
  ◌⊎◌, inl, inr, Option-cases,
}
use dsql_emulator.Wire.{Message}
use dsql_emulator.Session.State.{Env, Session, Hidden, savepoint, restoring, counting, rows_of}
use dsql_emulator.Session.Output.{end_exchange}
use dsql_emulator.Session.Failure.{consume_failure_message}
use dsql_emulator.Session.Adjudicator.{
  finish_hidden, consume_hidden, advance_hidden, pass_hidden, rollback_to_query, restart_query,
}
use dsql_emulator.Session.Backend.{
  own_or_client, relay, on_no_data, on_error, on_parameter_status, on_ready, on_complete,
  on_message, backend,
}
use dsql_emulator.Session.Exchanges.{requests, requests-query}
use dsql_emulator.Session.Server.{finish_hidden-Serves}

-- A step of the backend after its count was lowered: it writes its requests, and leaves the tracker.
pub record Answers (s t : Session) : Type 0 where
  pub grown :
      t.pending_exchanges + requests s.to_upstream ≡ s.pending_exchanges + requests t.to_upstream
  pub no_less : s.pending_exchanges ≤ t.pending_exchanges
  pub same_tracker : t.tracker ≡ s.tracker
  pub owed : (is_some t.hidden ≡ true) → (is_some s.hidden ≡ true) ⊎ (0 < t.pending_exchanges)

relay-Answers : (s : Session) (m : Message) → Answers s (relay s m)
unfolding relay
relay-Answers s m = ground arith

on_no_data-Answers : (s : Session) (m : Message) → Answers s (on_no_data s m)
unfolding on_no_data
on_no_data-Answers s m = ground arith

on_error-Answers : (e : Env) (s : Session) (m : Message) → Answers s (on_error e s m)
unfolding on_error
on_error-Answers e s m = ground arith

on_parameter_status-Answers :
    (e : Env) (s : Session) (m : Message) → Answers s (on_parameter_status e s m)
unfolding on_parameter_status
on_parameter_status-Answers e s m = ground arith

on_complete-Answers : (e : Env) (s : Session) (m : Message) → Answers s (on_complete e s m)
unfolding on_complete
on_complete-Answers e s m = ground arith

on_ready-Answers : (e : Env) (s : Session) (m : Message) → Answers s (on_ready e s m)
unfolding on_ready
on_ready-Answers e s m = ground (
  arith,
  Option-cases s.occ_repair,
  requests-query s.to_upstream rollback_to_query,
  requests-query s.to_upstream restart_query,
)

on_message-Answers : (e : Env) (s : Session) (m : Message) → Answers s (on_message e s m)
unfolding on_message
on_message-Answers e s m =
    if-intro (Answers s) (m.tag == b'n') _ _ (λ _. on_no_data-Answers s m)
      λ _.
        if-intro (Answers s) (m.tag == b'E') _ _ (λ _. on_error-Answers e s m)
          λ _.
            if-intro (Answers s) (m.tag == b'S') _ _ (λ _. on_parameter_status-Answers e s m)
              λ _.
                if-intro (Answers s) (m.tag == b'Z') _ _ (λ _. on_ready-Answers e s m)
                  λ _.
                    if-intro (Answers s) (m.tag == b'C') _ _ (λ _. on_complete-Answers e s m)
                      (λ _. relay-Answers s m)

consume_failure-Answers : (s : Session) (m : Message) → Answers s (consume_failure_message s m)
unfolding consume_failure_message
consume_failure-Answers s m = ground (arith, Option-cases s.failure)

-- What the upstream's message does, from the state with one request less where it is a ReadyForQuery.
pub record Served (z : Bool) (s t : Session) : Type 0 where
  pub grown :
      t.pending_exchanges + requests s.to_upstream ≡ s.pending_exchanges + requests t.to_upstream
  pub no_less : s.pending_exchanges ≤ t.pending_exchanges
  pub same_tracker : t.tracker ≡ s.tracker
  pub owed :
      (is_some t.hidden ≡ true)
      → ((z ≡ false) × (is_some s.hidden ≡ true)) ⊎ (0 < t.pending_exchanges)

pass_hidden-Served :
    (e : Env) (s : Session) (h : Hidden) (m : Message)
    → s.hidden ≡ some h
    → Served false s (record (pass_hidden s h m) { hidden = some (advance_hidden e h m) })
unfolding pass_hidden
pass_hidden-Served e s (savepoint failed) m p = ground arith
pass_hidden-Served e s (restoring f failed) m p = ground arith
pass_hidden-Served e s (counting f failed rows) m p = ground arith
pass_hidden-Served e s (rows_of f failed) m p = ground arith

finished-Served :
    (e : Env) (s : Session) (h : Hidden)
    → Served true s (finish_hidden e (record s { hidden = none }) h)
finished-Served e s h = ground (arith, finish_hidden-Serves e (record s { hidden = none }) h)

consumed-Served :
    (z : Bool) (e : Env) (s : Session) (h : Hidden) (m : Message)
    → s.hidden ≡ some h
    → Served z s (
        if z
        then finish_hidden e (record s { hidden = none }) (advance_hidden e h m)
        else record (pass_hidden s h m) { hidden = some (advance_hidden e h m) })
consumed-Served true e s h m p = finished-Served e s (advance_hidden e h m)
consumed-Served false e s h m p = pass_hidden-Served e s h m p

client_or_failure-Served :
    (z : Bool) (e : Env) (s : Session) (m : Message)
    → s.hidden ≡ none
    → Served z s (own_or_client e s m none)
client_or_failure-Served z e s m p =
    ground (arith, consume_failure-Answers s m, on_message-Answers e s m)

unfoldable pub served : (z : Bool) → Session → Session
served z s = if z then end_exchange s else s

-- Whatever the upstream sends, the tracker is left alone and, once a ReadyForQuery has lowered the count
-- of unanswered requests, the count grows by the requests that are written to the upstream; a hidden
-- exchange is left only where it stood before a message that is no ReadyForQuery, or where a request is
-- unanswered.
pub backend-Served :
    (e : Env) (s : Session) (m : Message)
    → Served (m.tag == b'Z') (served (m.tag == b'Z') s) (backend e s m)
unfolding backend served consume_hidden
backend-Served e s m =
    let z : Bool = m.tag == b'Z' in
    elim (Option-cases (served z s).hidden) [
      | inl p ↦ rw (p, own_or_client) (client_or_failure-Served z e (served z s) m p)
      | inr (h, p) ↦ rw (p, own_or_client) (consumed-Served z e (served z s) h m p)
    ]
