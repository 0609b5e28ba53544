-- ===== src/Classify/Kinds.antt =====
-- internal/classify/kind.go: the kind of a statement, and the relations that it writes.
use dsql_emulator.Prelude.{
  List, [], ◌∷◌, Option, none, some, is_nil, if◌then◌else◌, ◌||◌, Text, lit, text_eq, contains,
}
use dsql_emulator.Kind.{Kind, other, select, dml, ddl, begin, commit, rollback}
use dsql_emulator.Classify.Syntax.{
  Statement, RangeVar, node_type, insert_stmt, update_stmt, delete_stmt, merge_stmt,
}
use dsql_emulator.Classify.Alter.{txn_kind}

unfoldable pub ddl_nodes : List Text
ddl_nodes =
    lit "create_stmt"
    ∷ lit "alter_table_stmt"
    ∷ lit "drop_stmt"
    ∷ lit "index_stmt"
    ∷ lit "view_stmt"
    ∷ lit "create_seq_stmt"
    ∷ lit "alter_seq_stmt"
    ∷ lit "create_schema_stmt"
    ∷ lit "grant_stmt"
    ∷ lit "revoke_stmt"
    ∷ lit "comment_stmt"
    ∷ lit "create_table_as_stmt"
    ∷ lit "rename_stmt"
    ∷ lit "alter_owner_stmt"
    ∷ lit "alter_object_schema_stmt"
    ∷ []

abbrev pub relation_name : Option RangeVar → List Text
relation_name none = []
relation_name (some rel) = if is_nil rel.relname then [] else rel.relname ∷ []

unfoldable pub statement_tables : Statement → List Text
statement_tables (insert_stmt rel) = relation_name rel
statement_tables (update_stmt rel) = relation_name rel
statement_tables (delete_stmt rel) = relation_name rel
statement_tables (merge_stmt rel) = relation_name rel
statement_tables _ = []

-- The kind of a transaction command, from its name.
unfoldable pub transaction_kind : Text → Kind
transaction_kind name =
    if text_eq name (lit "TRANS_STMT_BEGIN") || text_eq name (lit "TRANS_STMT_START")
    then begin
    else if text_eq name (lit "TRANS_STMT_COMMIT")
    then commit
    else if text_eq name (lit "TRANS_STMT_ROLLBACK")
    then rollback
    else other

-- By the name of the node, as the source's `switch` does.
unfoldable pub kind_of : Statement → Kind
unfolding transaction_kind ddl_nodes node_type txn_kind
kind_of s =
    let name = node_type s in
    if text_eq name (lit "insert_stmt")
      || text_eq name (lit "update_stmt")
      || text_eq name (lit "delete_stmt")
      || text_eq name (lit "merge_stmt")
    then dml
    else if text_eq name (lit "select_stmt")
    then select
    else if text_eq name (lit "transaction_stmt")
    then transaction_kind (txn_kind s)
    else if contains ddl_nodes name
    then ddl
    else other
