-- ===== src/Session/Client.antt =====
-- Every message of the client, whatever the state that it finds.
use dsql_emulator.Prelude.{
  ℕ, ◌≡◌, true, false, [], ◌∷◌, Option, none, some, ◌==◌, arith, Text, if-intro, ==_iff,
}
use dsql_emulator.Verdict.{Result}
use dsql_emulator.Wire.{Message, Parse, Bind, Frontend, Decoded, decode_frontend}
use dsql_emulator.Rewrite.{strip_async}
use dsql_emulator.Session.State.{Env, Session, StatementInfo, forwarded}
use dsql_emulator.Session.Output.{write_upstream, forward, note_batch_state}
use dsql_emulator.Session.Failure.{reject}
use dsql_emulator.Session.Jobs.{put_statement, delete_statement, find_statement}
use dsql_emulator.Session.Frontend.{
  run_admitted, finish_bind, handle_query, handle_parse, handle_bind, handle_close, dispatched,
  frontend, query_stripped, parse_aborted, parse_classified, parse_stripped, bind_known,
  query_decoded, parse_decoded, bind_decoded, closes,
}
use dsql_emulator.Session.Exchanges.{
  requests-forwarded, savepoints-append, Quiet, Quiet-trans, forward-Quiet, reject-Quiet,
  reject_failed-Quiet, put_statement-Quiet, delete_statement-Quiet, note_batch_state-Quiet,
  handle_sync-Quiet,
}
use dsql_emulator.Session.Steps.{run_admitted-Quiet, send_parse-Quiet, finish_bind-Quiet}
use dsql_emulator.Session.Tracked.{
  Follows, of_Quiet, then-Quiet, admitted-Follows, forward_async_job-Follows, end_forward-Follows,
  query_plain-Follows,
}

query_stripped-Follows :
    (e : Env) (now : ℕ) (random : Option Text) (s : Session) (m : Message) (sql : Text)
    (stripped : Option (Text × ℕ))
    → Follows s (query_stripped e now random s m sql stripped)
query_stripped-Follows e now random s m sql none = query_plain-Follows e now s m sql
query_stripped-Follows e now random s m sql (some (rewritten, ordinal)) =
    forward_async_job-Follows e now random s m (Frontend.query sql) rewritten ordinal false

query_decoded-Follows :
    (e : Env) (now : ℕ) (random : Option Text) (s : Session) (m : Message) (d : Decoded)
    → Follows s (query_decoded e now random s m d)
query_decoded-Follows e now random s m (Decoded.decoded (Frontend.query sql)) =
    query_stripped-Follows e now random s m sql (strip_async e.scan sql)
query_decoded-Follows e now random s m _ = of_Quiet s _ (forward-Quiet s m)

parse_aborted-Quiet :
    (s : Session) (m : Message) (p : Parse) (r : Option Result) → Quiet s (parse_aborted s m p r)
parse_aborted-Quiet s m p none = reject_failed-Quiet s true
parse_aborted-Quiet s m p (some r) =
    let v : StatementInfo = record {
      kinds = r.kinds;
      tables = r.tables;
      intent = none;
      job_id = [];
    } in
    let t : Session = put_statement s p.name v in
    ground (
      arith,
      reject_failed-Quiet s true,
      Quiet-trans s t (forward t m) (put_statement-Quiet s p.name v) (forward-Quiet t m),
    )

parse_classified-Quiet :
    (e : Env) (s : Session) (m : Message) (p : Parse) (r : Option Result)
    → Quiet s (parse_classified e s m p r)
parse_classified-Quiet e s m p none =
    let t : Session = delete_statement s p.name in
    Quiet-trans s t (forward t m) (delete_statement-Quiet s p.name) (forward-Quiet t m)
parse_classified-Quiet e s m p (some r) =
    let t : Session = delete_statement s p.name in
    ground (
      arith,
      send_parse-Quiet e s m p r,
      Quiet-trans s t (reject t r.verdict.code r.verdict.message true)
          (delete_statement-Quiet s p.name) (reject-Quiet t r.verdict.code r.verdict.message true),
    )

parse_stripped-Follows :
    (e : Env) (now : ℕ) (random : Option Text) (s : Session) (m : Message) (p : Parse)
    (stripped : Option (Text × ℕ))
    → Follows s (parse_stripped e now random s m p stripped)
parse_stripped-Follows e now random s m p (some (rewritten, ordinal)) =
    forward_async_job-Follows e now random s m (Frontend.parse p) rewritten 0 true
parse_stripped-Follows e now random s m p none = of_Quiet s _ (
    ground (
      arith,
      parse_aborted-Quiet s m p (e.classify false p.query),
      parse_classified-Quiet e s m p (e.classify false p.query),
    ))

parse_decoded-Follows :
    (e : Env) (now : ℕ) (random : Option Text) (s : Session) (m : Message) (d : Decoded)
    → Follows s (parse_decoded e now random s m d)
parse_decoded-Follows e now random s m (Decoded.decoded (Frontend.parse p)) =
    parse_stripped-Follows e now random s m p (strip_async e.scan p.query)
parse_decoded-Follows e now random s m _ = of_Quiet s _ (forward-Quiet s m)

bind_known-Follows :
    (e : Env) (now : ℕ) (s : Session) (m : Message) (b : Bind) (info : Option StatementInfo)
    → Follows s (bind_known e now s m b info)
bind_known-Follows e now s m b none = of_Quiet s _ (forward-Quiet s m)
bind_known-Follows e now s m b (some info) = ground (
  arith,
  end_forward-Follows s now m,
  of_Quiet s _ (reject_failed-Quiet s true),
  admitted-Follows s info.kinds now (λ t v. reject t v.code v.message true)
      (λ t. run_admitted e t info.kinds info.tables info.intent (some b) true (finish_bind info m))
      (λ t v. reject-Quiet t v.code v.message true)
      (λ t.
        run_admitted-Quiet e t info.kinds info.tables info.intent (some b) true (finish_bind info m)
          (finish_bind-Quiet info m)),
)

bind_decoded-Follows :
    (e : Env) (now : ℕ) (s : Session) (m : Message) (d : Decoded)
    → Follows s (bind_decoded e now s m d)
bind_decoded-Follows e now s m (Decoded.decoded (Frontend.bind b)) =
    bind_known-Follows e now s m b (find_statement b.prepared_statement s.statements)
bind_decoded-Follows e now s m _ = of_Quiet s _ (forward-Quiet s m)

closes-Quiet : (s : Session) (m : Message) (d : Decoded) → Quiet s (closes s m d)
closes-Quiet s m (Decoded.decoded (Frontend.close c)) =
    let t : Session = delete_statement s c.name in
    ground (
      arith,
      forward-Quiet s m,
      Quiet-trans s t (forward t m) (delete_statement-Quiet s c.name) (forward-Quiet t m),
    )
closes-Quiet s m _ = forward-Quiet s m

terminate-Follows :
    (s : Session) (m : Message)
    → m.tag ≡ b'X'
    → Follows s (record (write_upstream s (forwarded m)) { ended = true })
unfolding write_upstream
terminate-Follows s m x = of_Quiet s _ (
    ground (
      arith,
      requests-forwarded s.to_upstream m,
      savepoints-append s.to_upstream (forwarded m ∷ []),
    ))

dispatched-Follows :
    (e : Env) (now : ℕ) (random : Option Text) (s : Session) (m : Message)
    → Follows s (dispatched e now random s m)
unfolding dispatched handle_query handle_parse handle_bind handle_close
dispatched-Follows e now random s m =
    let d : Decoded = decode_frontend e.codec m.tag m.body in
    if-intro (Follows s) (m.tag == b'Q') _ _ (λ _. query_decoded-Follows e now random s m d)
      λ _.
        if-intro (Follows s) (m.tag == b'P') _ _ (λ _. parse_decoded-Follows e now random s m d)
          λ _.
            if-intro (Follows s) (m.tag == b'B') _ _ (λ _. bind_decoded-Follows e now s m d)
              λ _.
                if-intro (Follows s) (m.tag == b'C') _ _ (λ _. of_Quiet s _ (closes-Quiet s m d))
                  (λ _. of_Quiet s _ (forward-Quiet s m))

noted : (s t : Session) (tag : ℕ) → Follows s t → Follows s (note_batch_state t tag)
noted s t tag f = then-Quiet s t _ f (note_batch_state-Quiet t tag)

-- Whatever the client sends, the count of unanswered requests grows by the requests that are written to
-- the upstream; a hidden exchange is started only where a SAVEPOINT query of the session's own is written
-- and a request is unanswered afterwards; none takes the place of another while a request is unanswered;
-- and the tracker is given at most one batch to admit.
pub frontend-Follows :
    (e : Env) (now : ℕ) (random : Option Text) (s : Session) (m : Message)
    → Follows s (frontend e now random s m)
unfolding frontend
frontend-Follows e now random s m =
    if-intro (Follows s) s.ended _ _ (λ _. of_Quiet s s (ground arith))
      λ _.
        if-intro (Follows s) (m.tag == b'X') _ _ (λ x. terminate-Follows s m ((==_iff _ _).0 x))
          λ _.
            if-intro (Follows s) (m.tag == b'S') _ _
              (λ _. noted s _ m.tag (of_Quiet s _ (handle_sync-Quiet s m)))
              λ _.
                if-intro (Follows s) s.skip_sync _ _ (λ _. of_Quiet s s (ground arith))
                  λ _. noted s _ m.tag (dispatched-Follows e now random s m)
