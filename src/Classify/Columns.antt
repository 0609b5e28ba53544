-- ===== src/Classify/Columns.antt =====
-- internal/classify/eval.go: the columns that a statement declares, and their types.
use dsql_emulator.Prelude.{
  Bool, false, not, ◌||◌, List, [], ◌∷◌, ◌++◌, Option, none, some, is_nil, if◌then◌else◌, Text, lit,
  text_eq, contains,
}
use dsql_emulator.Classify.Syntax.{
  Statement, ColumnDef, Constraint, TypeName, AlterTableCmd, create_stmt, alter_table_stmt,
  create_table_as_stmt,
}
use dsql_emulator.Classify.Walk.{last_name}

unfoldable pub relpersistence : Statement → Text
relpersistence (create_stmt (some rel) _) = rel.relpersistence
relpersistence (create_table_as_stmt (some rel) _) = rel.relpersistence
relpersistence _ = []

-- The items that are there.
unfoldable pub present {ℓ} : {A : Type ℓ} → List (Option A) → List A
present [] = []
present (none ∷ xs) = present xs
present (some x ∷ xs) = x ∷ present xs

-- ADD COLUMN, and ALTER COLUMN ... TYPE.
abbrev pub declares : AlterTableCmd → Bool
declares cmd =
    text_eq cmd.subtype (lit "AT_AddColumn") || text_eq cmd.subtype (lit "AT_AlterColumnType")

unfoldable pub declared : List AlterTableCmd → List ColumnDef
unfolding present
declared [] = []
declared (cmd ∷ cmds) =
    let rest = declared cmds in if declares cmd then present (cmd.column_def ∷ []) ++ rest else rest

unfoldable pub column_defs : Statement → List ColumnDef
unfolding declared present
column_defs (create_stmt _ elts) = present elts
column_defs (alter_table_stmt cmds) = declared (present cmds)
column_defs _ = []

-- `lastTypeName`, of a type that may be missing.
unfoldable pub last_type_name : Option TypeName → Text
unfolding last_name
last_type_name none = []
last_type_name (some t) = last_name t.names

-- The last part of a name, where there is one and it is a string.
unfoldable pub last_string : List (Option Text) → List Text
last_string [] = []
last_string (none ∷ []) = []
last_string (some s ∷ []) = s ∷ []
last_string (p ∷ q ∷ parts) = last_string (q ∷ parts)

abbrev pub type_of_column : ColumnDef → List Text
unfolding last_string
type_of_column col = elim col.type_name [ none ↦ [] | some t ↦ last_string t.names ]

unfoldable pub types_of : List ColumnDef → List Text
unfolding last_string
types_of [] = []
types_of (col ∷ cols) = type_of_column col ++ types_of cols

unfoldable pub column_types : Statement → List Text
unfolding types_of column_defs
column_types s = types_of (column_defs s)

abbrev pub is_array : ColumnDef → Bool
is_array col = elim col.type_name [ none ↦ false | some t ↦ not (is_nil t.array_bounds) ]

unfoldable pub any_array : List ColumnDef → Bool
any_array [] = false
any_array (col ∷ cols) = is_array col || any_array cols

unfoldable pub has_array_column : Statement → Bool
unfolding any_array column_defs
has_array_column s = any_array (column_defs s)

abbrev pub is_identity : Constraint → Bool
is_identity c = text_eq c.contype (lit "CONSTR_IDENTITY")

unfoldable pub any_identity : List Constraint → Bool
any_identity [] = false
any_identity (c ∷ cs) = is_identity c || any_identity cs

unfoldable pub is_identity_column : ColumnDef → Bool
unfolding any_identity present
is_identity_column col = any_identity (present col.constraints)

-- The loop of `identityColumnType`.
unfoldable pub first_identity_type : List Text → List ColumnDef → Option Text
unfolding is_identity_column last_type_name
first_identity_type allowed [] = none
first_identity_type allowed (col ∷ cols) =
    let rest = first_identity_type allowed cols in
    let written = last_type_name col.type_name in
    if not (is_identity_column col) || is_nil written || contains allowed written
    then rest
    else some written

unfoldable pub identity_column_type : Statement → List Text → Option Text
unfolding first_identity_type column_defs
identity_column_type s allowed = first_identity_type allowed (column_defs s)
