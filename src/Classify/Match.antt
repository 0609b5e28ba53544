-- ===== src/Classify/Match.antt =====
-- `matches` of internal/classify/eval.go: whether every predicate that a rule sets holds.
use dsql_emulator.Prelude.{
  Bool, true, false, not, ◌&&◌, ◌||◌, List, [], ◌∷◌, Option, none, some, is_some, Text, text_eq,
  contains, ℤ,
}
use dsql_emulator.Rules.{Rule}
use dsql_emulator.Classify.Syntax.{Node, node_type}
use dsql_emulator.Classify.Walk.{function_names, contains_node, vacuum_kind}
use dsql_emulator.Classify.Columns.{
  relpersistence, column_types, has_array_column, identity_column_type,
}
use dsql_emulator.Classify.Options.{
  function_language, sequence_cache, cache_too_small, has_small_identity_cache,
}
use dsql_emulator.Classify.Alter.{
  locking_strengths, alter_actions, adds_column_with_constraint, adds_constraint_of_type,
  adds_constraint_without_validation, show_name, remove_type, rename_type, objtype, txn_kind,
  set_parameter,
}

unfoldable pub intersects : List Text → List Text → Bool
intersects want [] = false
intersects want (g ∷ got) = contains want g || intersects want got

-- A predicate that the rule leaves out holds.
abbrev pub unless_empty : List Text → Bool → Bool
unless_empty [] holds = true
unless_empty (_ ∷ _) holds = holds

abbrev pub when : Bool → Bool → Bool
when true holds = holds
when false holds = true

abbrev pub at_least : Option ℤ → (ℤ → Bool) → Bool
at_least none holds = true
at_least (some min) holds = holds min

unfoldable pub matches : Rule → Node → Bool
unfolding intersects
matches r n =
    let s = n.statement in
    text_eq (node_type s) r.stmt
    && unless_empty r.relpersistence (contains r.relpersistence (relpersistence s))
    && unless_empty r.column_type (intersects r.column_type (column_types s))
    && when r.column_array (has_array_column s)
    && unless_empty r.remove_type (contains r.remove_type (remove_type s))
    && unless_empty r.rename_type (contains r.rename_type (rename_type s))
    && unless_empty r.locking (intersects r.locking (locking_strengths s))
    && unless_empty r.function (intersects r.function (function_names n.tree))
    && unless_empty r.contains (contains_node r.contains n.tree)
    && unless_empty r.vacuum_kind (contains r.vacuum_kind (vacuum_kind s))
    && unless_empty r.show_name (contains r.show_name (show_name s))
    && unless_empty r.alter_action (intersects r.alter_action (alter_actions s))
    && when r.add_constraint_missing_not_valid (adds_constraint_without_validation s)
    && unless_empty r.add_constraint_type (adds_constraint_of_type s r.add_constraint_type)
    && unless_empty r.add_column_constraint (adds_column_with_constraint s r.add_column_constraint)
    && unless_empty r.objtype (contains r.objtype (objtype s))
    && unless_empty r.txn_kind (contains r.txn_kind (txn_kind s))
    && unless_empty r.set_name (contains r.set_name (set_parameter s))
    && unless_empty r.language_not (not (contains r.language_not (function_language s)))
    && at_least r.sequence_cache_min (λ min. cache_too_small (sequence_cache s) min r.cache_allow)
    && unless_empty r.identity_type_not (is_some (identity_column_type s r.identity_type_not))
    && at_least r.identity_cache_min (λ min. has_small_identity_cache s min r.cache_allow)
