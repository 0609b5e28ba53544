-- ===== src/Session/Analyzed/Witnesses.antt =====
-- The theorem on an analysed statement, at UPDATE t SET a = $1 WHERE b = $2.
use dsql_emulator.Prelude.{◌≡◌, refl, false, List, [], ◌∷◌, Option, some, Text, lit, pos, negsuc}
use dsql_emulator.Occ.{Intent}
use dsql_emulator.Occ.Renumber.{collect, sort, insert, place, has}
use dsql_emulator.Occ.Tree.{Tree, msg, param_ref, nil, field, refs_of, relabel, renumber_tree}
use dsql_emulator.Occ.Analyze.{
  Statement, update_stmt, Parser, Deparser, node, analyze, intent_of, count_intent, count_select,
  shadow_intent, list_field,
}
use dsql_emulator.Occ.Relabelled.{unnumbered}
use dsql_emulator.Session.Shadow.{pick_params, bind_format}
use dsql_emulator.Session.Analyzed.{IsReadOf, HasClientValues, analyzed_values}

abbrev condition : Tree
condition = node (lit "a_expr") (
    msg (lit "A_Expr") ((lit "kind", lit "AEXPR_OP") ∷ [])
      (field (lit "rexpr") (param_ref (pos 2)) nil))

abbrev update : Statement
update =
    update_stmt [] (some (msg (lit "RangeVar") ((lit "relname", lit "t") ∷ []) nil)) []
      (some condition)

abbrev parse_update : Parser
parse_update sql = some (some update ∷ [])

abbrev count_text : Text
count_text = lit "SELECT count(*) FROM t WHERE b = $1"

abbrev deparse_count : Deparser
deparse_count t = some count_text

abbrev intent : Intent
intent = record {
  tag = lit "UPDATE";
  rows = negsuc 0;
  shadow = count_text;
  rowset = false;
  params = pos 2 ∷ [];
}

abbrev bound : List (Option Text)
bound = some (lit "x") ∷ some (lit "y") ∷ []

update_analyzed :
    analyze parse_update deparse_count (lit "UPDATE t SET a = $1 WHERE b = $2") ≡ some intent
unfolding analyze intent_of count_intent count_select list_field shadow_intent renumber_tree refs_of
    relabel collect has sort insert place
update_analyzed = refl

analyzed_values_example :
    (t : Tree) × (sent : Tree) × IsReadOf update t
    × (deparse_count sent ≡ some intent.shadow)
    × (unnumbered sent ≡ unnumbered t)
    × HasClientValues t (some (lit "y") ∷ []) (0 ∷ []) bound [] sent
unfolding pick_params bind_format
analyzed_values_example =
    analyzed_values parse_update deparse_count (lit "UPDATE t SET a = $1 WHERE b = $2") update
      intent bound [] (some (lit "y") ∷ [], 0 ∷ []) refl update_analyzed refl refl
