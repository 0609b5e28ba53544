-- ===== src/Session/Repair.antt =====
-- A refused UPDATE or DELETE, from the refusal to the answer that the client is given.
use dsql_emulator.Prelude.{
  ◌≡◌, refl, false, List, [], ◌∷◌, ◌++◌, none, some, arith, ◌∙◌, is_nil, ℤ, pos,
}
use dsql_emulator.Occ.{command_tag}
use dsql_emulator.Wire.{Message}
use dsql_emulator.Session.State.{
  Env, Session, InFlight, Hidden, restoring, counting, command_complete, ready_for_query, query,
}
use dsql_emulator.Session.Shadow.{shadow_params}
use dsql_emulator.Session.Backend.{backend, backend_all}
use dsql_emulator.Session.Swallow.{readies}
use dsql_emulator.Session.Deferral.{Stage, has_error, last_count}

-- The refused statement is one whose rows are counted, by a shadow that asks for none of its parameters.
pub record IsCounted (f : InFlight) : Type 0 where
  pub shadow : is_nil f.intent.shadow ≡ false
  pub counted : f.intent.rowset ≡ false
  pub params : shadow_params f ≡ some ([], [])

pub shadow_started :
    (e : Env) (s : Session) (z : Message) (f : InFlight)
    → Stage s (some (restoring f false))
    → IsCounted f
    → z.tag ≡ b'Z'
    → let t = backend e s z in
      Stage t (some (counting f false (pos 0)))
      × (t.occ_doomed ≡ s.occ_doomed)
      × (t.tx_status ≡ s.tx_status)
      × (t.to_client ≡ s.to_client)
      × (t.to_upstream ≡ s.to_upstream ++ query f.intent.shadow ∷ [])
unfolding backend
shadow_started e s z f g c t = ground arith

-- What a hidden exchange leaves alone until its end.
pub record Unseen (s t : Session) (h : Hidden) : Type 0 where
  pub stage : Stage t (some h)
  pub doomed : t.occ_doomed ≡ s.occ_doomed
  pub status : t.tx_status ≡ s.tx_status
  pub client : t.to_client ≡ s.to_client
  pub upstream : t.to_upstream ≡ s.to_upstream

counted_one :
    (e : Env) (s : Session) (m : Message) (f : InFlight) (n : ℤ)
    → Stage s (some (counting f false n))
    → readies (m ∷ []) ≡ 0
    → has_error (m ∷ []) ≡ false
    → Unseen s (backend e s m) (counting f false (last_count e (m ∷ []) n))
unfolding backend readies has_error last_count
counted_one e s m f n g r x = ground arith

pub counted_all :
    (e : Env) (s : Session) (ms : List Message) (f : InFlight) (n : ℤ)
    → Stage s (some (counting f false n))
    → readies ms ≡ 0
    → has_error ms ≡ false
    → Unseen s (backend_all e s ms) (counting f false (last_count e ms n))
unfolding backend_all readies has_error last_count
counted_all e s [] f n g r x = record {
  stage = g;
  doomed = refl;
  status = refl;
  client = refl;
  upstream = refl;
}
counted_all e s (m ∷ ms) f n g r x =
    let one = counted_one e s m f n g (ground arith) (ground arith) in
    let rest =
      counted_all e (backend e s m) ms f (last_count e (m ∷ []) n) one.stage (ground arith)
        (ground arith) in
    record {
      stage = rest.stage;
      doomed = rest.doomed ∙ one.doomed;
      status = rest.status ∙ one.status;
      client = rest.client ∙ one.client;
      upstream = rest.upstream ∙ one.upstream;
    }

pub repair_ended :
    (e : Env) (s : Session) (z : Message) (f : InFlight) (n : ℤ)
    → Stage s (some (counting f false n))
    → z.tag ≡ b'Z'
    → let t = backend e s z in
      (t.to_client
        ≡ (s.to_client ++ command_complete (command_tag f.intent n) ∷ [])
          ++ ready_for_query b'T' ∷ [])
      × (t.to_upstream ≡ s.to_upstream)
      × (t.hidden ≡ none)
      × (t.occ_doomed ≡ s.occ_doomed)
      × (t.tx_status ≡ s.tx_status)
unfolding backend
repair_ended e s z f n g t = ground arith
