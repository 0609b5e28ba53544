-- ===== src/Classify/Async.antt =====
-- What the option `AsyncRewritten` changes.
use dsql_emulator.Prelude.{◌≡◌, true, false, List, [], ◌∷◌, Option, none, some, arith, Text}
use dsql_emulator.Verdict.{Result, rejected}
use dsql_emulator.Rules.{Rule, Ruleset}
use dsql_emulator.Rules.Validate.{validate}
use dsql_emulator.Classify.{Parser, classify}
use dsql_emulator.Classify.Syntax.{Node}
use dsql_emulator.Classify.Columns.{present}
use dsql_emulator.Classify.Violations.{breaks_any, any_violates, classify-rejected}

breaks_any_async :
    (rules : List Rule) (n : Node)
    → breaks_any true rules n ≡ true
    → breaks_any false rules n ≡ true
unfolding breaks_any
breaks_any_async [] n h = h
breaks_any_async (r ∷ rules) n h = ground (arith, breaks_any_async rules n)

any_violates_async :
    (rs : Ruleset) (ns : List Node)
    → any_violates true rs ns ≡ true
    → any_violates false rs ns ≡ true
unfolding any_violates
any_violates_async rs [] h = h
any_violates_async rs (n ∷ ns) h =
    ground (arith, any_violates_async rs ns, breaks_any_async rs.unsupported n)

-- With a ruleset that passes validation, a text that is refused although its ASYNC keywords were taken out
-- is refused without that option too: the option only leaves rules out.
pub classify_async :
    (parse : Parser) (rs : Ruleset) (sql : Text) (nodes : List (Option Node)) (q r : Result)
    → validate rs ≡ none
    → parse sql ≡ some nodes
    → classify parse rs true sql ≡ some q
    → classify parse rs false sql ≡ some r
    → rejected q.verdict ≡ true
    → rejected r.verdict ≡ true
classify_async parse rs sql nodes q r v p a b h = ground (
  arith,
  classify-rejected parse rs true sql nodes q v p a,
  classify-rejected parse rs false sql nodes r v p b,
  any_violates_async rs (present nodes),
)
