-- ===== src/Classify/Violations.antt =====
-- What makes a text refused, said of its statements one by one.
use dsql_emulator.Prelude.{
  ◌≡◌, refl, Bool, true, false, not, ◌&&◌, ◌||◌, List, [], ◌∷◌, ◌++◌, map, Option, none, some,
  is_some, is_nil, arith, Text, lit, Option-cases, inl, inr, append-nil, append_assoc,
}
use dsql_emulator.Verdict.{Verdict, Result, rejected}
use dsql_emulator.Rules.{Rule, Ruleset}
use dsql_emulator.Rules.Validate.{validate, IsValid, AreDistinct, validate-IsValid}
use dsql_emulator.Classify.{
  Parser, classify, scan, refuse, accepted, noted, broken_rule, rule_verdict, isolation_verdict,
}
use dsql_emulator.Classify.Syntax.{Node}
use dsql_emulator.Classify.Columns.{present}
use dsql_emulator.Classify.Match.{matches}
use dsql_emulator.Classify.Kinds.{kind_of, statement_tables}
use dsql_emulator.Classify.Isolation.{unsupported_isolation}

-- A rule that only asks for the ASYNC form is no rule for a statement that was given in it.
abbrev pub breaks : Bool → Rule → Node → Bool
breaks async r n = not (r.unless_async && async) && matches r n

unfoldable pub breaks_any : Bool → List Rule → Node → Bool
breaks_any async [] n = false
breaks_any async (r ∷ rules) n = breaks async r n || breaks_any async rules n

unfoldable pub violates : Bool → Ruleset → Node → Bool
unfolding breaks_any
violates async rs n =
    is_some (unsupported_isolation n.statement rs.isolation.supported)
    || breaks_any async rs.unsupported n

unfoldable pub any_violates : Bool → Ruleset → List Node → Bool
unfolding violates
any_violates async rs [] = false
any_violates async rs (n ∷ ns) = violates async rs n || any_violates async rs ns

unfoldable pub all_tables : List Node → List Text
all_tables [] = []
all_tables (n ∷ ns) = statement_tables n.statement ++ all_tables ns

is_some-broken_rule :
    (async : Bool) (rules : List Rule) (n : Node)
    → is_some (broken_rule async rules n) ≡ breaks_any async rules n
unfolding broken_rule breaks_any
is_some-broken_rule async [] n = refl
is_some-broken_rule async (r ∷ rules) n = ground (arith, is_some-broken_rule async rules n)

pub is_some-refuse :
    (async : Bool) (rs : Ruleset) (n : Node) → is_some (refuse async rs n) ≡ violates async rs n
unfolding refuse violates
is_some-refuse async rs n = ground (
  arith,
  Option-cases (unsupported_isolation n.statement rs.isolation.supported),
  Option-cases (broken_rule async rs.unsupported n),
  is_some-broken_rule async rs.unsupported n,
)

-- In a valid ruleset every rule has a code, so that its refusal is one.
broken_rule-has_code :
    (async : Bool) (seen : List Text) (rules : List Rule) (n : Node) {r : Rule}
    → AreDistinct seen rules
    → broken_rule async rules n ≡ some r
    → is_nil r.code ≡ false
unfolding broken_rule
broken_rule-has_code async seen [] n v h = ground arith
broken_rule-has_code async seen (q ∷ rules) n {r = r} (s, _, v) h =
    ground (arith, broken_rule-has_code async (q.id ∷ seen) rules n {r = r} v, s.code)

refuse-rejected :
    (async : Bool) (rs : Ruleset) (n : Node) {v : Verdict}
    → IsValid rs
    → refuse async rs n ≡ some v
    → rejected v ≡ true
unfolding refuse rule_verdict isolation_verdict
refuse-rejected async rs n {v = v} i h =
    elim (Option-cases (unsupported_isolation n.statement rs.isolation.supported)) [
      | inl p ↦ elim (Option-cases (broken_rule async rs.unsupported n)) [
        | inl q ↦ ground (arith, p, q, h)
        | inr (r, q) ↦
            let c : is_nil r.code ≡ false =
              broken_rule-has_code async [] rs.unsupported n i.rules q in
            ground (arith, p, q, h, c)
      ]
      | inr (level, p) ↦ unfold lit in ground (arith, p, h)
    ]

-- The loop, from the kinds and tables that it has gathered so far.
scan-rejected :
    (async : Bool) (rs : Ruleset) (acc : Result) (ns : List Node)
    → IsValid rs
    → rejected acc.verdict ≡ false
    → rejected (scan async rs acc ns).verdict ≡ any_violates async rs ns
unfolding scan any_violates
scan-rejected async rs acc [] i a = a
scan-rejected async rs acc (n ∷ ns) i a = elim (Option-cases (refuse async rs n)) [
  | inl p ↦
      ground (arith, p, is_some-refuse async rs n, scan-rejected async rs (noted acc n) ns i a)
  | inr (v, p) ↦ ground (arith, p, is_some-refuse async rs n, refuse-rejected async rs n i p)
]

scan-accepted :
    (async : Bool) (rs : Ruleset) (acc : Result) (ns : List Node)
    → any_violates async rs ns ≡ false
    → scan async rs acc ns ≡ record acc {
      kinds = acc.kinds ++ map (λ n. kind_of n.statement) ns;
      tables = acc.tables ++ all_tables ns;
    }
unfolding scan any_violates all_tables
scan-accepted async rs acc [] h = ground (arith, append-nil acc.kinds, append-nil acc.tables)
scan-accepted async rs acc (n ∷ ns) h = ground (
  arith,
  is_some-refuse async rs n,
  Option-cases (refuse async rs n),
  scan-accepted async rs (noted acc n) ns,
  append_assoc acc.kinds (kind_of n.statement ∷ []) (map (λ (n : Node). kind_of n.statement) ns),
  append_assoc acc.tables (statement_tables n.statement) (all_tables ns),
)

-- A text that can be parsed is refused, by a ruleset that passes validation, exactly when one of its
-- statements asks for an isolation level that is not supported or breaks a rule that applies to it.
pub classify-rejected :
    (parse : Parser) (rs : Ruleset) (async : Bool) (sql : Text) (nodes : List (Option Node))
    (r : Result)
    → validate rs ≡ none
    → parse sql ≡ some nodes
    → classify parse rs async sql ≡ some r
    → rejected r.verdict ≡ any_violates async rs (present nodes)
unfolding classify
classify-rejected parse rs async sql nodes r v p h =
    ground (
      arith,
      p,
      h,
      scan-rejected async rs accepted (present nodes) ((validate-IsValid rs).0 v) refl,
    )

-- A text none of whose statements violates the ruleset is accepted with one kind for each of its statements,
-- and with the relations that they write, both in their order.
pub classify-accepted :
    (parse : Parser) (rs : Ruleset) (async : Bool) (sql : Text) (nodes : List (Option Node))
    → parse sql ≡ some nodes
    → any_violates async rs (present nodes) ≡ false
    → classify parse rs async sql
      ≡ some (record {
        verdict = accepted.verdict;
        kinds = map (λ n. kind_of n.statement) (present nodes);
        tables = all_tables (present nodes);
      })
unfolding classify
classify-accepted parse rs async sql nodes p h =
    ground (arith, p, scan-accepted async rs accepted (present nodes) h)
