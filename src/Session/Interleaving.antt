-- ===== src/Session/Interleaving.antt =====
-- The two connections' messages, interleaved in any way.
use dsql_emulator.Prelude.{
  ℕ, ◌≤◌, ◌<◌, ◌≡◌, refl, sym, ap, subst, Bool, true, false, Option, ◌==◌, arith, Text, is_some,
  inl, inr,
}
use dsql_emulator.Txn
use dsql_emulator.Txn.Batch.{IsExclusive, admit-IsExclusive}
use dsql_emulator.Wire.{Message}
use dsql_emulator.Session.State.{Env, Session}
use dsql_emulator.Session.Output.{end_exchange}
use dsql_emulator.Session.Backend.{backend}
use dsql_emulator.Session.Frontend.{frontend}
use dsql_emulator.Session.Exchanges.{requests}
use dsql_emulator.Session.Served.{served, backend-Served}
use dsql_emulator.Session.Client.{frontend-Follows}
use dsql_emulator.Session.Sample.{new_session}

-- The messages of the two connections, in the order in which the session comes to handle them.
pub data Reach (e : Env) (s : Session) : Session → Type 0 where
  start : Reach e s s
  client :
      {t : Session}
      → Reach e s t
      → (now : ℕ) (random : Option Text) (m : Message) → Reach e s (frontend e now random t m)
  server : {t : Session} → Reach e s t → (m : Message) → Reach e s (backend e t m)

pub record Inv (s : Session) : Type 0 where
  pub owed : is_some s.hidden ≡ true → 0 < s.pending_exchanges
  pub counted : s.pending_exchanges ≤ requests s.to_upstream
  pub exclusive : IsExclusive s.tracker

new_session-Inv : (limits : Txn.Limits) → Inv (new_session limits)
unfolding new_session requests
new_session-Inv limits = ground arith

served-same :
    (z : Bool) (s : Session)
    → ((served z s).hidden ≡ s.hidden)
      × ((served z s).pending_exchanges ≤ s.pending_exchanges)
      × ((served z s).to_upstream ≡ s.to_upstream)
      × ((served z s).tracker ≡ s.tracker)
unfolding served end_exchange
served-same z s = ground arith

served-false : (s : Session) → served false s ≡ s
unfolding served
served-false s = refl

frontend-Inv :
    (e : Env) (now : ℕ) (random : Option Text) (s : Session) (m : Message)
    → Inv s
    → Inv (frontend e now random s m)
frontend-Inv e now random s m v =
    let f = frontend-Follows e now random s m in
    record {
      owed = ground (arith, f.fresh, f.no_less, v.owed);
      counted = omega (arith, f.grown, v.counted);
      exclusive = elim f.tracked [
        | inl p ↦ subst IsExclusive (sym p) v.exclusive
        | inr (ks, n, p) ↦ subst IsExclusive (sym p) (admit-IsExclusive s.tracker ks n v.exclusive)
      ];
    }

backend-Inv : (e : Env) (s : Session) (m : Message) → Inv s → Inv (backend e s m)
backend-Inv e s m v =
    let z : Bool = m.tag == b'Z' in
    let b = backend-Served e s m in
    let lowered = served-same z s in
    record {
      owed = ground (arith, b.owed, b.no_less, lowered, v.owed, served-false s);
      counted = omega (arith, b.grown, lowered, ap requests lowered.2, v.counted);
      exclusive =
          subst IsExclusive (sym b.same_tracker) (subst IsExclusive (sym lowered.3) v.exclusive);
    }

-- Whatever a client and the upstream send to a new session, and however their messages interleave: a
-- hidden exchange has a request that the upstream has yet to answer, no more requests count as
-- unanswered than were written, and the tracker has counted at most one DDL statement and no
-- DML statement beside it.
pub Reach-Inv :
    (e : Env) (limits : Txn.Limits) {s : Session} → Reach e (new_session limits) s → Inv s
Reach-Inv e limits start = new_session-Inv limits
Reach-Inv e limits (client {t} r now random m) =
    frontend-Inv e now random t m (Reach-Inv e limits r)
Reach-Inv e limits (server {t} r m) = backend-Inv e t m (Reach-Inv e limits r)
