-- ===== src/Classify/Refusal.antt =====
-- internal/classify/message.go: the message of a refusal, with what the statement names.
use dsql_emulator.Prelude.{
  not, List, [], ◌∷◌, ◌++◌, Option, none, some, is_nil, if◌then◌else◌, Text, lit, text_eq, contains,
  has_text, replace_all,
}
use dsql_emulator.Rules.{Rule}
use dsql_emulator.Classify.Syntax.{Node, ColumnDef}
use dsql_emulator.Classify.Walk.{function_names}
use dsql_emulator.Classify.Columns.{column_defs, is_array, last_type_name, identity_column_type}
use dsql_emulator.Classify.Options.{function_language}

unfoldable pub type_placeholder : Text
type_placeholder = lit "{type}"

unfoldable pub language_placeholder : Text
language_placeholder = lit "{language}"

unfoldable pub canonical : List (Text × Text)
canonical =
    (lit "int2", lit "smallint")
    ∷ (lit "int4", lit "integer")
    ∷ (lit "int8", lit "bigint")
    ∷ (lit "float4", lit "real")
    ∷ (lit "float8", lit "double precision")
    ∷ (lit "bool", lit "boolean")
    ∷ (lit "varbit", lit "bit varying")
    ∷ (lit "bpchar", lit "character")
    ∷ (lit "varchar", lit "character varying")
    ∷ []

unfoldable pub displayed : List (Text × Text) → Text → Text
displayed [] written = written
displayed ((k, v) ∷ rest) written =
    let later = displayed rest written in if text_eq k written then v else later

unfoldable pub canonical_type : Text → Text
unfolding displayed
canonical_type written = displayed canonical written

unfoldable pub first_array : List ColumnDef → Option Text
unfolding last_type_name canonical_type
first_array [] = none
first_array (col ∷ cols) =
    let rest = first_array cols in
    if is_array col then some (canonical_type (last_type_name col.type_name) ++ lit "[]") else rest

-- The first column that has a type, and one of those wanted.
unfoldable pub first_typed : List Text → List ColumnDef → Option Text
unfolding last_type_name
first_typed want [] = none
first_typed want (col ∷ cols) =
    let rest = first_typed want cols in
    elim col.type_name [
      | none ↦ rest
      | some t ↦
          let written = last_type_name (some t) in
          if contains want written then some written else rest
    ]

unfoldable pub first_wanted : List Text → List Text → Option Text
first_wanted want [] = none
first_wanted want (g ∷ got) =
    let rest = first_wanted want got in if contains want g then some g else rest

-- The first of the loops of `refusedType` that returns.
abbrev pub or_next : Option Text → Text → Text
or_next none next = next
or_next (some found) next = found

abbrev pub shown_or : Option Text → Text → Text
unfolding canonical_type
shown_or none next = next
shown_or (some written) next = canonical_type written

unfoldable pub refused_type : Rule → Node → Text
unfolding first_array identity_column_type first_typed first_wanted canonical_type column_defs
refused_type r n =
    let cols = column_defs n.statement in
    or_next (if r.column_array then first_array cols else none) (
      shown_or
        (if is_nil r.identity_type_not
          then none
          else identity_column_type n.statement r.identity_type_not)
        (shown_or (if is_nil r.column_type then none else first_typed r.column_type cols)
          (shown_or (first_wanted r.function (function_names n.tree)) [])))

abbrev pub put_in : Text → Text → Text → Text
put_in placeholder value message =
    if has_text placeholder message then replace_all placeholder value message else message

unfoldable pub fill : Rule → Node → Text
unfolding refused_type
fill r n =
    if not (has_text (lit "{") r.message)
    then r.message
    else put_in language_placeholder (function_language n.statement)
        (put_in type_placeholder (refused_type r n) r.message)
