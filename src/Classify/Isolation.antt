-- ===== src/Classify/Isolation.antt =====
-- internal/classify/isolation.go: a request for an isolation level. A level that is supported is taken to be
-- ASCII, and so is one that is put into upper case.
use dsql_emulator.Prelude.{
  Bool, false, ◌||◌, List, [], ◌∷◌, Option, none, some, is_nil, if◌then◌else◌, Text, lit, text_eq,
  equal_fold, to_upper,
}
use dsql_emulator.Classify.Syntax.{Statement, DefElem, transaction_stmt, variable_set_stmt}
use dsql_emulator.Classify.Columns.{present}
use dsql_emulator.Classify.Options.{find_option, or_empty}

unfoldable pub def_elem_value : List (Option DefElem) → Text → Text
unfolding find_option present
def_elem_value options name = or_empty (find_option (λ de. de.const_arg) name (present options))

-- The first of a SET's arguments, where it is a constant string.
abbrev pub first_constant : List (Option Text) → Text
first_constant [] = []
first_constant (a ∷ args) = or_empty a

unfoldable pub isolation_level : Statement → Text
unfolding def_elem_value
isolation_level (transaction_stmt _ options) = def_elem_value options (lit "transaction_isolation")
isolation_level (variable_set_stmt name elems args) =
    if text_eq name (lit "TRANSACTION") || text_eq name (lit "SESSION CHARACTERISTICS")
    then def_elem_value elems (lit "transaction_isolation")
    else if text_eq name (lit "transaction_isolation")
        || text_eq name (lit "default_transaction_isolation")
    then first_constant args
    else []
isolation_level _ = []

unfoldable pub is_supported : List Text → Text → Bool
is_supported [] level = false
is_supported (s ∷ supported) level = equal_fold s level || is_supported supported level

-- The level in upper case, where it is asked for and not supported.
unfoldable pub unsupported_isolation : Statement → List Text → Option Text
unfolding isolation_level is_supported
unsupported_isolation s supported =
    let level = isolation_level s in
    if is_nil level
    then none
    else if is_supported supported level
    then none
    else some (to_upper level)
