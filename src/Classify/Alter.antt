-- ===== src/Classify/Alter.antt =====
-- internal/classify/eval.go: the commands of an ALTER TABLE, and the names that other statements carry.
use dsql_emulator.Prelude.{
  Bool, false, not, ◌&&◌, ◌||◌, List, [], ◌∷◌, map, Option, none, some, is_nil, if◌then◌else◌, Text,
  lit, text_eq, contains,
}
use dsql_emulator.Classify.Syntax.{
  Statement, AlterTableCmd, Constraint, alter_table_stmt, select_stmt, variable_show_stmt,
  drop_stmt, rename_stmt, create_table_as_stmt, transaction_stmt, variable_set_stmt,
}
use dsql_emulator.Classify.Columns.{present}

unfoldable pub locking_strengths : Statement → List Text
unfolding present
locking_strengths (select_stmt clauses) = present clauses
locking_strengths _ = []

-- The commands of an ALTER TABLE.
unfoldable pub commands : Statement → List AlterTableCmd
unfolding present
commands (alter_table_stmt cmds) = present cmds
commands _ = []

unfoldable pub alter_actions : Statement → List Text
unfolding commands
alter_actions s = map (λ cmd. cmd.subtype) (commands s)

unfoldable pub any_of_kind : List Text → List Constraint → Bool
any_of_kind kinds [] = false
any_of_kind kinds (c ∷ cs) = contains kinds c.contype || any_of_kind kinds cs

-- The constraints of a command's column, where it has one.
abbrev pub column_constraints : AlterTableCmd → List (Option Constraint)
column_constraints cmd = elim cmd.column_def [ none ↦ [] | some col ↦ col.constraints ]

abbrev pub adds_column : AlterTableCmd → Bool
adds_column cmd = text_eq cmd.subtype (lit "AT_AddColumn")

abbrev pub adds_constraint : AlterTableCmd → Bool
adds_constraint cmd = text_eq cmd.subtype (lit "AT_AddConstraint")

unfoldable pub any_column_with : List Text → List AlterTableCmd → Bool
unfolding any_of_kind present
any_column_with kinds [] = false
any_column_with kinds (cmd ∷ cmds) =
    let rest = any_column_with kinds cmds in
    if adds_column cmd then any_of_kind kinds (present (column_constraints cmd)) || rest else rest

unfoldable pub adds_column_with_constraint : Statement → List Text → Bool
unfolding any_column_with commands
adds_column_with_constraint s kinds = any_column_with kinds (commands s)

-- A constraint that adopts an index has the index's name.
abbrev pub is_of_type : List Text → Option Constraint → Bool
is_of_type kinds none = false
is_of_type kinds (some c) = is_nil c.indexname && contains kinds c.contype

unfoldable pub any_of_type : List Text → List AlterTableCmd → Bool
any_of_type kinds [] = false
any_of_type kinds (cmd ∷ cmds) =
    let rest = any_of_type kinds cmds in
    if adds_constraint cmd then is_of_type kinds cmd.constraint || rest else rest

unfoldable pub adds_constraint_of_type : Statement → List Text → Bool
unfolding any_of_type commands
adds_constraint_of_type s kinds = any_of_type kinds (commands s)

abbrev pub needs_validation : Option Constraint → Bool
needs_validation none = false
needs_validation (some c) =
    not c.skip_validation
    && (text_eq c.contype (lit "CONSTR_CHECK") || text_eq c.contype (lit "CONSTR_FOREIGN"))

unfoldable pub any_unvalidated : List AlterTableCmd → Bool
any_unvalidated [] = false
any_unvalidated (cmd ∷ cmds) =
    let rest = any_unvalidated cmds in
    if adds_constraint cmd then needs_validation cmd.constraint || rest else rest

unfoldable pub adds_constraint_without_validation : Statement → Bool
unfolding any_unvalidated commands
adds_constraint_without_validation s = any_unvalidated (commands s)

unfoldable pub show_name : Statement → Text
show_name (variable_show_stmt name) = name
show_name _ = []

unfoldable pub remove_type : Statement → Text
remove_type (drop_stmt kind) = kind
remove_type _ = []

unfoldable pub rename_type : Statement → Text
rename_type (rename_stmt kind) = kind
rename_type _ = []

unfoldable pub objtype : Statement → Text
objtype (create_table_as_stmt _ kind) = kind
objtype _ = []

unfoldable pub txn_kind : Statement → Text
txn_kind (transaction_stmt kind _) = kind
txn_kind _ = []

unfoldable pub set_parameter : Statement → Text
set_parameter (variable_set_stmt name _ _) = name
set_parameter _ = []
