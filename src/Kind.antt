-- ===== src/Kind.antt =====
-- internal/classify/classify.go: the kinds of statement that the transaction rules tell apart.
use dsql_emulator.Prelude.{Bool, true, false, List, [], ◌∷◌, ◌||◌}

pub data Kind : Type 0 where
  other select dml ddl begin commit rollback : Kind

abbrev pub is_rollback : Kind → Bool
is_rollback rollback = true
is_rollback _ = false

abbrev pub is_commit_kind : Kind → Bool
is_commit_kind commit = true
is_commit_kind _ = false

-- `isCommit` of internal/proxy/session.go: some statement of the batch is a COMMIT.
unfoldable pub is_commit : List Kind → Bool
is_commit [] = false
is_commit (k ∷ ks) = is_commit_kind k || is_commit ks

-- `endsTransaction` over kinds, of the same file.
unfoldable pub ends_transaction : List Kind → Bool
ends_transaction [] = false
ends_transaction (k ∷ ks) = (is_commit_kind k || is_rollback k) || ends_transaction ks
