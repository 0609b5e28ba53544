-- ===== src/Txn/History.antt =====
-- The tracker against the list of statements that the open transaction has run.
use dsql_emulator.Prelude.{
  ℕ, ◌+◌, ◌≡◌, refl, ap, ◌∙◌, Bool, true, false, not, ◌&&◌, ◌||◌, List, [], ◌∷◌, ◌++◌, Option, none,
  some, arith, ltb, if◌then◌else◌, is_some, Option-cases,
}
use dsql_emulator.Kind.{Kind, other, select, dml, ddl, begin, commit, rollback}
use dsql_emulator.Txn.{Tracker, settle, check, has_rollback, too_old, note, note_all, admit, run}
use dsql_emulator.Txn.Segments.{
  ddls, dmls, segments, last_segment, lawful, all_lawful, ddls-snoc, dmls-snoc, all_lawful-segments,
  check-lawful,
}

-- An abstract session: whether a transaction is open and since when, how old it may get, and the
-- statements run since the last boundary.
pub record History : Type 0 where
  pub is_open : Bool
  pub began : Option ℕ
  pub max_age : ℕ
  pub piece : List Kind

-- Outside a transaction every batch starts afresh.
abbrev pub base : History → List Kind
base h = if h.is_open then h.piece else []

abbrev ends_open : Bool → Kind → Bool
ends_open o begin = true
ends_open o commit = false
ends_open o rollback = false
ends_open o _ = o

abbrev begins : ℕ → Option ℕ → Kind → Option ℕ
begins now b begin = some now
begins now b _ = b

unfoldable pub open_after : Bool → List Kind → Bool
open_after o [] = o
open_after o (k ∷ ks) = open_after (ends_open o k) ks

unfoldable pub began_after : ℕ → Option ℕ → List Kind → Option ℕ
began_after now b [] = b
began_after now b (k ∷ ks) = began_after now (begins now b k) ks

abbrev over_age : ℕ → Option ℕ → ℕ → Bool
over_age max_age none now = false
over_age max_age (some b) now = ltb 0 max_age && ltb (b + max_age) now

-- A batch is refused when it holds no ROLLBACK and its transaction is too old, or when a piece of what
-- the history and the batch make together breaks the rules.
unfoldable pub refuses : History → List Kind → ℕ → Bool
refuses h ks now =
    (not (has_rollback ks) && h.is_open && over_age h.max_age h.began now)
    || not (all_lawful (segments (base h) ks))

unfoldable pub extend : History → List Kind → ℕ → History
extend h ks now = record h {
  is_open = open_after h.is_open ks;
  began = began_after now h.began ks;
  piece = last_segment (base h) ks;
}

unfoldable pub step : History → List Kind → ℕ → History
step h ks now = if refuses h ks now then record h { piece = base h } else extend h ks now

unfoldable pub replay : History → List (List Kind × ℕ) → History
replay h [] = h
replay h ((ks, now) ∷ bs) = replay (step h ks now) bs

pub record Tracks (t : Tracker) (h : History) : Type 0 where
  pub same_open : t.in_txn ≡ h.is_open
  pub same_began : t.began_at ≡ h.began
  pub same_age : t.limits.max_age ≡ h.max_age
  pub same_ddl : t.ddl_count ≡ ddls h.piece
  pub same_dml : t.dml_seen ≡ ltb 0 (dmls h.piece)
  pub is_lawful : lawful h.piece ≡ true

settle-Tracks :
    (t : Tracker) (h : History) → Tracks t h → Tracks (settle t) (record h { piece = base h })
unfolding settle ddls dmls lawful
settle-Tracks t h v = ground arith

too_old-over_age :
    (t : Tracker) (h : History) (now : ℕ)
    → Tracks t h
    → too_old (settle t) now ≡ over_age h.max_age h.began now
unfolding too_old settle
too_old-over_age t h now v = ground arith

-- A tracker that tracks a session's history refuses a batch exactly when the history does.
pub admit-refuses :
    (t : Tracker) (h : History) (ks : List Kind) (now : ℕ)
    → Tracks t h
    → is_some (admit t ks now).1 ≡ refuses h ks now
unfolding admit refuses
admit-refuses t h ks now v =
    let s = settle-Tracks t h v in
    ground (
      arith,
      s,
      too_old-over_age t h now v,
      Option-cases (check (settle t).ddl_count (settle t).dml_seen ks),
      check-lawful (base h) ks (settle t).ddl_count (settle t).dml_seen s.same_ddl s.same_dml
          s.is_lawful,
    )

note_all-Tracks :
    (now : ℕ) (t : Tracker) (h : History) (piece ks : List Kind)
    → Tracks t (record h { piece = piece })
    → all_lawful (segments piece ks) ≡ true
    → Tracks (note_all now t ks) (record h {
      is_open = open_after h.is_open ks;
      began = began_after now h.began ks;
      piece = last_segment piece ks;
    })
unfolding note_all note segments last_segment open_after began_after all_lawful ddls dmls
note_all-Tracks now t h piece [] v l = v
note_all-Tracks now t h piece (begin ∷ ks) v l =
    note_all-Tracks now (note now t begin) (record h { is_open = true; began = some now }) [] ks
      (unfold lawful in ground arith) (ground arith)
note_all-Tracks now t h piece (commit ∷ ks) v l =
    note_all-Tracks now (note now t commit) (record h { is_open = false }) [] ks
      (unfold lawful in ground arith) (ground arith)
note_all-Tracks now t h piece (rollback ∷ ks) v l =
    note_all-Tracks now (note now t rollback) (record h { is_open = false }) [] ks
      (unfold lawful in ground arith) (ground arith)
note_all-Tracks now t h piece (ddl ∷ ks) v l =
    note_all-Tracks now (note now t ddl) h (piece ++ ddl ∷ []) ks
      (ground (arith, ddls-snoc piece ddl, dmls-snoc piece ddl, all_lawful-segments _ ks l)) l
note_all-Tracks now t h piece (dml ∷ ks) v l =
    note_all-Tracks now (note now t dml) h (piece ++ dml ∷ []) ks
      (ground (arith, ddls-snoc piece dml, dmls-snoc piece dml, all_lawful-segments _ ks l)) l
note_all-Tracks now t h piece (other ∷ ks) v l =
    note_all-Tracks now t h (piece ++ other ∷ []) ks
      (ground (arith, ddls-snoc piece other, dmls-snoc piece other, all_lawful-segments _ ks l)) l
note_all-Tracks now t h piece (select ∷ ks) v l =
    note_all-Tracks now t h (piece ++ select ∷ []) ks
      (ground (arith, ddls-snoc piece select, dmls-snoc piece select, all_lawful-segments _ ks l)) l

admit-Tracks :
    (t : Tracker) (h : History) (ks : List Kind) (now : ℕ)
    → Tracks t h
    → Tracks (admit t ks now).0 (step h ks now)
unfolding admit step extend refuses
admit-Tracks t h ks now v =
    let s = settle-Tracks t h v in
    ground (
      arith,
      s,
      too_old-over_age t h now v,
      Option-cases (check (settle t).ddl_count (settle t).dml_seen ks),
      check-lawful (base h) ks (settle t).ddl_count (settle t).dml_seen s.same_ddl s.same_dml
          s.is_lawful,
      note_all-Tracks now (settle t) h (base h) ks s,
    )

-- Which batches of a sequence are refused: by a tracker, and by a history.
unfoldable pub verdicts : Tracker → List (List Kind × ℕ) → List Bool
verdicts t [] = []
verdicts t ((ks, now) ∷ bs) = is_some (admit t ks now).1 ∷ verdicts (admit t ks now).0 bs

unfoldable pub refusals : History → List (List Kind × ℕ) → List Bool
refusals h [] = []
refusals h ((ks, now) ∷ bs) = refuses h ks now ∷ refusals (step h ks now) bs

-- A tracker that tracks a session's history still does after every sequence of batches, each given with its
-- time, and of the batches it refuses those that the history is refused, and no others.
pub run-Tracks :
    (t : Tracker) (h : History) (bs : List (List Kind × ℕ))
    → Tracks t h
    → Tracks (run t bs) (replay h bs) × (verdicts t bs ≡ refusals h bs)
unfolding run replay verdicts refusals
run-Tracks t h [] v = (v, refl)
run-Tracks t h ((ks, now) ∷ bs) v =
    let (later, same) =
      run-Tracks (admit t ks now).0 (step h ks now) bs (admit-Tracks t h ks now v) in
    (
      later,
      ap (λ b. b ∷ verdicts (admit t ks now).0 bs) (admit-refuses t h ks now v)
          ∙ ap (λ bs'. refuses h ks now ∷ bs') same,
    )
