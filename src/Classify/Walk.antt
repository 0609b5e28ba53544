-- ===== src/Classify/Walk.antt =====
-- internal/classify/walk.go: what is found anywhere in a statement, and VACUUM against ANALYZE.
use dsql_emulator.Prelude.{
  Bool, true, false, ◌||◌, List, [], ◌∷◌, ◌++◌, Option, none, some, is_nil, if◌then◌else◌, Text,
  lit, contains,
}
use dsql_emulator.Classify.Syntax.{View, Tree, Trees, msg, nil, cons, Statement, vacuum_stmt}

-- The last part of a qualified name, where that is a string, and otherwise the empty text.
unfoldable pub last_name : List (Option Text) → Text
last_name [] = []
last_name (none ∷ []) = []
last_name (some s ∷ []) = s
last_name (p ∷ q ∷ parts) = last_name (q ∷ parts)

-- `functionName`.
abbrev pub function_name : List (Option Text) → Text
unfolding last_name
function_name parts = last_name parts

abbrev pub named : Text → List Text
named name = if is_nil name then [] else name ∷ []

abbrev pub called_in : Option View → List Text
called_in none = []
called_in (some v) = elim v.func_name [ none ↦ [] | some parts ↦ named (last_name parts) ]

-- `functionNames`, in the order of `walkNodes`.
unfoldable mutual
  pub function_names : Tree → List Text
  function_names (msg name view kids) = called_in view ++ function_names_in kids

  pub function_names_in : Trees → List Text
  function_names_in nil = []
  function_names_in (cons t ts) = function_names t ++ function_names_in ts

-- The test of one message in `containsNode`: by its node's type, and by the name of its own.
abbrev pub is_wanted : List Text → Text → Option View → Bool
is_wanted wanted name none = contains wanted name
is_wanted wanted name (some v) = contains wanted v.node_type || contains wanted name

-- `containsNode`, in the order of `walkMessages`; once something is found nothing more is looked at.
unfoldable mutual
  pub contains_node : List Text → Tree → Bool
  contains_node wanted (msg name view kids) =
      is_wanted wanted name view || contains_node_in wanted kids

  pub contains_node_in : List Text → Trees → Bool
  contains_node_in wanted nil = false
  contains_node_in wanted (cons t ts) = contains_node wanted t || contains_node_in wanted ts

unfoldable pub vacuum_kind : Statement → Text
vacuum_kind (vacuum_stmt true) = lit "VACUUM"
vacuum_kind (vacuum_stmt false) = lit "ANALYZE"
vacuum_kind _ = []
