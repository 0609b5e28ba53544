-- ===== src/Classify.antt =====
-- internal/classify: whether DSQL accepts a text, and of what kinds its statements are.
-- The parser of pg_query is a parameter, `parse`: `none` is a parse error, and a statement may be missing.
pub mod Syntax
pub mod Walk
pub mod Columns
pub mod Options
pub mod Alter
pub mod Match
pub mod Kinds
pub mod Isolation
pub mod Refusal
pub mod Violations
pub mod Reasons
pub mod Sample
mod Witnesses
pub mod Levels
pub mod Caches
pub mod Writes
pub mod Async
pub mod Order
use dsql_emulator.Prelude.{
  Bool, true, false, ◌&&◌, List, [], ◌∷◌, ◌++◌, Option, none, some, if◌then◌else◌, Text, lit,
}
use dsql_emulator.Kind.{Kind}
use dsql_emulator.Verdict.{Verdict, Result}
use dsql_emulator.Rules.{Rule, Ruleset}
use dsql_emulator.Classify.Syntax.{Node}
use dsql_emulator.Classify.Columns.{present}
use dsql_emulator.Classify.Match.{matches}
use dsql_emulator.Classify.Kinds.{kind_of, statement_tables}
use dsql_emulator.Classify.Isolation.{unsupported_isolation}
use dsql_emulator.Classify.Refusal.{fill}

abbrev pub Parser : Type 0
Parser = Text → Option (List (Option Node))

abbrev pub accepted : Result
accepted = record {
  verdict = record { rule_id = []; code = []; message = [] };
  kinds = [];
  tables = [];
}

abbrev pub refusal : Verdict → Result
refusal v = record { verdict = v; kinds = []; tables = [] }

unfoldable pub isolation_verdict : Text → Verdict
isolation_verdict level = record {
  rule_id = lit "isolation";
  code = lit "0A000";
  message = lit "Unsupported isolation level: " ++ level;
}

unfoldable pub rule_verdict : Rule → Node → Verdict
rule_verdict r n = record { rule_id = r.id; code = r.code; message = fill r n }

-- The loop over the rules: the first that the statement breaks. `async` is `AsyncRewritten()`.
unfoldable pub broken_rule : Bool → List Rule → Node → Option Rule
broken_rule async [] n = none
broken_rule async (r ∷ rules) n =
    let rest = broken_rule async rules n in
    if r.unless_async && async then rest else if matches r n then some r else rest

-- What the loop over the statements does with one of them: a verdict, where it is refused.
abbrev pub ruled : Node → Option Rule → Option Verdict
ruled n none = none
ruled n (some r) = some (rule_verdict r n)

unfoldable pub refuse : Bool → Ruleset → Node → Option Verdict
unfolding broken_rule rule_verdict isolation_verdict
refuse async rs n = elim (unsupported_isolation n.statement rs.isolation.supported) [
  | some level ↦ some (isolation_verdict level)
  | none ↦ ruled n (broken_rule async rs.unsupported n)
]

abbrev pub noted : Result → Node → Result
noted acc n = record acc {
  kinds = acc.kinds ++ kind_of n.statement ∷ [];
  tables = acc.tables ++ statement_tables n.statement;
}

-- The loop over the statements.
unfoldable pub scan : Bool → Ruleset → Result → List Node → Result
scan async rs acc [] = acc
scan async rs acc (n ∷ ns) = elim (refuse async rs n) [
  | some v ↦ refusal v
  | none ↦ scan async rs (noted acc n) ns
]

abbrev pub classified : Bool → Ruleset → Option (List (Option Node)) → Option Result
classified async rs none = none
classified async rs (some nodes) = some (scan async rs accepted (present nodes))

-- `Classify`, which is given the option `AsyncRewritten()` or not; `none` is an error.
unfoldable pub classify : Parser → Ruleset → Bool → Text → Option Result
classify parse rs async sql = classified async rs (parse sql)
