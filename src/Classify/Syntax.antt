-- ===== src/Classify/Syntax.antt =====
-- The parse trees of pg_query, as far as internal/classify reads them. Of each message it has the fields that
-- the source reads; an enum is its name, as `String()` gives it, and a getter's nil is `none`.
use dsql_emulator.Prelude.{Bool, List, Option, Text, lit, ℤ}

-- What the source reads of a node anywhere in a statement: the name of its oneof field, which is empty
-- where none is set, the parts of a called function's name, and a parameter's number.
pub record View : Type 0 where
  pub node_type : Text
  pub func_name : Option (List (Option Text))
  pub param_ref : Option ℤ

-- A message as reflection walks it: the name of its type, what is read of it if it is a `Node`, and the
-- messages in its fields, in the order in which `Range` gives them, which protobuf leaves open.
mutual
  pub data Tree : Type 0 where
    msg : Text → Option View → Trees → Tree

  pub data Trees : Type 0 where
    nil : Trees
    cons : Tree → Trees → Trees

-- The argument of an option: as a constant, a string, and an integer, each where it is one.
pub record DefElem : Type 0 where
  pub defname : Text
  pub const_arg : Option Text
  pub string_arg : Option Text
  pub integer_arg : Option ℤ

pub record Constraint : Type 0 where
  pub contype : Text
  pub indexname : Text
  pub skip_validation : Bool
  pub options : List (Option DefElem)

-- The parts of a type's name are strings, or other nodes.
pub record TypeName : Type 0 where
  pub names : List (Option Text)
  pub array_bounds : List Tree

pub record ColumnDef : Type 0 where
  pub type_name : Option TypeName
  pub constraints : List (Option Constraint)

-- `def` is a column, a constraint, or something else.
pub record AlterTableCmd : Type 0 where
  pub subtype : Text
  pub column_def : Option ColumnDef
  pub constraint : Option Constraint

-- The persistence of a relation, and its name.
pub record RangeVar : Type 0 where
  pub relname : Text
  pub relpersistence : Text

-- A statement's oneof. A list of nodes has `none` where a node is not of the kind that is read.
pub data Statement : Type 0 where
  create_stmt : Option RangeVar → List (Option ColumnDef) → Statement
  create_table_as_stmt : Option RangeVar → Text → Statement
  alter_table_stmt : List (Option AlterTableCmd) → Statement
  select_stmt : List (Option Text) → Statement
  insert_stmt update_stmt delete_stmt merge_stmt : Option RangeVar → Statement
  variable_show_stmt : Text → Statement
  drop_stmt rename_stmt : Text → Statement
  transaction_stmt : Text → List (Option DefElem) → Statement
  variable_set_stmt : Text → List (Option DefElem) → List (Option Text) → Statement
  create_function_stmt : List (Option DefElem) → Statement
  create_seq_stmt : List (Option DefElem) → Statement
  vacuum_stmt : Bool → Statement
  other_stmt : Text → Statement

pub record Node : Type 0 where
  pub statement : Statement
  pub tree : Tree

-- `nodeType` of a statement: the name of its oneof field.
unfoldable pub node_type : Statement → Text
node_type (create_stmt _ _) = lit "create_stmt"
node_type (create_table_as_stmt _ _) = lit "create_table_as_stmt"
node_type (alter_table_stmt _) = lit "alter_table_stmt"
node_type (select_stmt _) = lit "select_stmt"
node_type (insert_stmt _) = lit "insert_stmt"
node_type (update_stmt _) = lit "update_stmt"
node_type (delete_stmt _) = lit "delete_stmt"
node_type (merge_stmt _) = lit "merge_stmt"
node_type (variable_show_stmt _) = lit "variable_show_stmt"
node_type (drop_stmt _) = lit "drop_stmt"
node_type (rename_stmt _) = lit "rename_stmt"
node_type (transaction_stmt _ _) = lit "transaction_stmt"
node_type (variable_set_stmt _ _ _) = lit "variable_set_stmt"
node_type (create_function_stmt _) = lit "create_function_stmt"
node_type (create_seq_stmt _) = lit "create_seq_stmt"
node_type (vacuum_stmt _) = lit "vacuum_stmt"
node_type (other_stmt name) = name
