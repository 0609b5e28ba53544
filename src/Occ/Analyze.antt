-- ===== src/Occ/Analyze.antt =====
-- `Analyze` of internal/occ/occ.go. The parser and the deparser of pg_query are parameters: `parse` gives
-- what is read of each statement, and `deparse` the text of a statement's node.
use dsql_emulator.Prelude.{
  Bool, true, false, not, List, [], ◌∷◌, length, is_nil, Option, none, some, is_some, if◌then◌else◌,
  ◌||◌, Text, lit, ℤ, pos, negsuc,
}
use dsql_emulator.Occ.{Intent}
use dsql_emulator.Occ.Tree.{Tree, Fields, msg, nil, field, renumber_tree}

-- What is read of a statement: the RETURNING list, the relation, the other items of FROM or USING and the
-- condition of an UPDATE or a DELETE; of an INSERT its RETURNING list, its ON CONFLICT clause and, where
-- its source is a SELECT message, the VALUES lists of that; of a SELECT its locking clauses, its scalar
-- fields and its other messages.
pub data Statement : Type 0 where
  update_stmt delete_stmt : List Tree → Option Tree → List Tree → Option Tree → Statement
  insert_stmt : List Tree → Option Tree → Option (List Tree) → Statement
  select_stmt : List Tree → List (Text × Text) → Fields → Statement
  other_stmt : Statement

abbrev pub Parser : Type 0
Parser = Text → Option (List (Option Statement))

abbrev pub Deparser : Type 0
Deparser = Tree → Option Text

-- A `Node` whose oneof is the message.
abbrev pub node : Text → Tree → Tree
node name message = msg (lit "Node") [] (field name message nil)

abbrev pub count_star : Tree
count_star = node (lit "func_call") (
    msg (lit "FuncCall") ((lit "agg_star", lit "true") ∷ []) (
      field (lit "funcname")
        (node (lit "string") (msg (lit "String") ((lit "sval", lit "count") ∷ []) nil)) nil))

abbrev pub res_target : Tree → Tree
res_target value = node (lit "res_target") (msg (lit "ResTarget") [] (field (lit "val") value nil))

unfoldable pub list_field : Text → List Tree → Fields → Fields
list_field name [] fields = fields
list_field name (t ∷ ts) fields = field name t (list_field name ts fields)

abbrev pub optional : Text → Option Tree → Fields
optional name none = nil
optional name (some t) = field name t nil

-- The node of a SELECT, with its locking clauses as they are when it is rendered.
unfoldable pub select_node : List Tree → List (Text × Text) → Fields → Tree
unfolding list_field
select_node locking scalars fields =
    node (lit "select_stmt")
      (msg (lit "SelectStmt") scalars (list_field (lit "locking_clause") locking fields))

-- The statement that counts what another one would have changed.
unfoldable pub count_select : Tree → List Tree → Option Tree → Tree
unfolding list_field
count_select rel extra condition = node (lit "select_stmt") (
    msg (lit "SelectStmt")
      ((lit "limit_option", lit "LIMIT_OPTION_DEFAULT") ∷ (lit "op", lit "SETOP_NONE") ∷ [])
      (field (lit "target_list") (res_target count_star) (
        list_field (lit "from_clause") (node (lit "range_var") rel ∷ extra)
          (optional (lit "where_clause") condition))))

abbrev pub with_shadow : Text → Bool → List ℤ → Option Text → Option Intent
with_shadow tag rowset params none = none
with_shadow tag rowset params (some shadow) =
    some (record { tag = tag; rows = negsuc 0; shadow = shadow; rowset = rowset; params = params })

abbrev pub shadow_of : Deparser → Text → Bool → Option (List ℤ × Tree) → Option Intent
shadow_of deparse tag rowset none = none
shadow_of deparse tag rowset (some (params, t)) = with_shadow tag rowset params (deparse t)

unfoldable pub shadow_intent : Deparser → Text → Tree → Bool → Option Intent
unfolding renumber_tree
shadow_intent deparse tag t rowset = shadow_of deparse tag rowset (renumber_tree t)

unfoldable pub count_intent :
    Deparser → Text → Option Tree → List Tree → Option Tree → Option Intent
unfolding shadow_intent count_select
count_intent deparse tag none extra condition = none
count_intent deparse tag (some rel) extra condition =
    shadow_intent deparse tag (count_select rel extra condition) false

-- An INSERT says how many rows it has only by its VALUES lists.
abbrev pub insert_intent : Option (List Tree) → Option Intent
insert_intent none = none
insert_intent (some []) = none
insert_intent (some (v ∷ values)) = some (record {
  tag = lit "INSERT";
  rows = pos (length (v ∷ values));
  shadow = [];
  rowset = false;
  params = [];
})

unfoldable pub intent_of : Deparser → Statement → Option Intent
unfolding count_intent shadow_intent select_node
intent_of deparse (update_stmt returning rel from condition) =
    if not (is_nil returning) then none else count_intent deparse (lit "UPDATE") rel from condition
intent_of deparse (delete_stmt returning rel using condition) =
    if not (is_nil returning) then none else count_intent deparse (lit "DELETE") rel using condition
intent_of deparse (insert_stmt returning on_conflict values) =
    if not (is_nil returning) || is_some on_conflict then none else insert_intent values
intent_of deparse (select_stmt locking scalars fields) =
    if is_nil locking
    then none
    else shadow_intent deparse (lit "SELECT") (select_node [] scalars fields) true
intent_of deparse other_stmt = none

-- Of a text that is one statement.
abbrev pub only_statement : Option (List (Option Statement)) → Option Statement
only_statement (some (some s ∷ [])) = some s
only_statement _ = none

abbrev pub intent_if : Deparser → Option Statement → Option Intent
unfolding intent_of
intent_if deparse none = none
intent_if deparse (some s) = intent_of deparse s

-- `Analyze`; `none` is its nil.
unfoldable pub analyze : Parser → Deparser → Text → Option Intent
unfolding intent_of
analyze parse deparse sql = intent_if deparse (only_statement (parse sql))
