-- ===== src/Classify/Writes.antt =====
-- The writes of a text, its kinds, and the transaction rules.
use dsql_emulator.Prelude.{
  ℕ, ◌≡◌, ◌<◌, refl, sym, ◌∙◌, Bool, true, false, ◌||◌, List, [], ◌∷◌, map, Option, none, some,
  is_some, arith, Text, lit, text_eq, Option-cases,
}
use dsql_emulator.Kind.{Kind, other, select, dml, ddl, begin, commit, rollback}
use dsql_emulator.Txn.{Tracker, settle, check, admit}
use dsql_emulator.Verdict.{Result, rejected}
use dsql_emulator.Rules.{Ruleset}
use dsql_emulator.Rules.Validate.{validate}
use dsql_emulator.Classify.{Parser, classify}
use dsql_emulator.Classify.Syntax.{
  Statement, Node, create_stmt, insert_stmt, update_stmt, delete_stmt, merge_stmt,
}
use dsql_emulator.Classify.Columns.{present}
use dsql_emulator.Classify.Kinds.{kind_of}
use dsql_emulator.Classify.Violations.{any_violates, classify-accepted, classify-rejected}

-- An INSERT, an UPDATE, a DELETE or a MERGE; not one inside a WITH, nor a COPY.
abbrev pub is_write : Statement → Bool
is_write (insert_stmt _) = true
is_write (update_stmt _) = true
is_write (delete_stmt _) = true
is_write (merge_stmt _) = true
is_write _ = false

unfoldable pub any_write : List Node → Bool
any_write [] = false
any_write (n ∷ ns) = is_write n.statement || any_write ns

write-kind : (s : Statement) → is_write s ≡ true → kind_of s ≡ dml
unfolding kind_of lit text_eq
write-kind (insert_stmt rel) h = refl
write-kind (update_stmt rel) h = refl
write-kind (delete_stmt rel) h = refl
write-kind (merge_stmt rel) h = refl
write-kind (create_stmt _ _) h = ground arith
write-kind _ h = ground arith

abbrev is_dml : Kind → Bool
is_dml dml = true
is_dml _ = false

unfoldable pub has_dml : List Kind → Bool
has_dml [] = false
has_dml (k ∷ ks) = is_dml k || has_dml ks

abbrev is_boundary : Kind → Bool
is_boundary begin = true
is_boundary commit = true
is_boundary rollback = true
is_boundary _ = false

-- A BEGIN, a COMMIT or a ROLLBACK.
unfoldable pub has_boundary : List Kind → Bool
has_boundary [] = false
has_boundary (k ∷ ks) = is_boundary k || has_boundary ks

any_write-has_dml :
    (ns : List Node) → any_write ns ≡ true → has_dml (map (λ n. kind_of n.statement) ns) ≡ true
unfolding any_write has_dml
any_write-has_dml [] h = ground arith
any_write-has_dml (n ∷ ns) h = ground (arith, write-kind n.statement, any_write-has_dml ns)

check_after_ddl :
    (n : ℕ) (seen : Bool) (ks : List Kind)
    → 0 < n
    → has_dml ks ≡ true
    → has_boundary ks ≡ false
    → is_some (check n seen ks) ≡ true
unfolding check has_dml has_boundary
check_after_ddl n seen [] p d b = ground arith
check_after_ddl n seen (dml ∷ ks) p d b = ground arith
check_after_ddl n seen (ddl ∷ ks) p d b = ground arith
check_after_ddl n seen (begin ∷ ks) p d b = ground arith
check_after_ddl n seen (commit ∷ ks) p d b = ground arith
check_after_ddl n seen (rollback ∷ ks) p d b = ground arith
check_after_ddl n seen (select ∷ ks) p d b = check_after_ddl n seen ks p d b
check_after_ddl n seen (other ∷ ks) p d b = check_after_ddl n seen ks p d b

-- A text that a ruleset which passes validation accepts, one of whose statements is itself an INSERT, an
-- UPDATE, a DELETE or a MERGE, and that holds no BEGIN, COMMIT or ROLLBACK, is refused in a transaction
-- that has run a DDL statement, whatever the text holds beside. (A write inside a WITH and a COPY are no
-- such statements.)
pub write_after_ddl :
    (parse : Parser) (rs : Ruleset) (async : Bool) (sql : Text) (nodes : List (Option Node))
    (r : Result) (t : Tracker) (now : ℕ)
    → validate rs ≡ none
    → parse sql ≡ some nodes
    → classify parse rs async sql ≡ some r
    → rejected r.verdict ≡ false
    → any_write (present nodes) ≡ true
    → has_boundary r.kinds ≡ false
    → t.in_txn ≡ true
    → 0 < t.ddl_count
    → is_some (admit t r.kinds now).1 ≡ true
unfolding admit settle
write_after_ddl parse rs async sql nodes r t now valid p c a w b i d =
    let v : any_violates async rs (present nodes) ≡ false =
      sym (classify-rejected parse rs async sql nodes r valid p c) ∙ a in
    let kinds : r.kinds ≡ map (λ n. kind_of n.statement) (present nodes) =
      ground (arith, c, classify-accepted parse rs async sql nodes p v) in
    let wrote : has_dml r.kinds ≡ true = rw kinds (any_write-has_dml (present nodes) w) in
    ground (
      arith,
      Option-cases (check t.ddl_count t.dml_seen r.kinds),
      check_after_ddl t.ddl_count t.dml_seen r.kinds d wrote b,
    )
