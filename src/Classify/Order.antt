-- ===== src/Classify/Order.antt =====
-- Reflection gives the fields of a message in an order that is left open: what does not depend on it.
use dsql_emulator.Prelude.{
  ◌≡◌, refl, ap, ◌∙◌, Bool, true, false, ◌||◌, List, [], ◌∷◌, ◌++◌, Option, none, some, arith, Text,
  subst,
}
use dsql_emulator.Rules.{Rule, Ruleset}
use dsql_emulator.Classify.Syntax.{View, Tree, Trees, msg, nil, cons, Node}
use dsql_emulator.Classify.Walk.{
  function_names, function_names_in, contains_node, contains_node_in, called_in,
}
use dsql_emulator.Classify.Match.{matches, intersects}
use dsql_emulator.Verdict.{Verdict, Result}
use dsql_emulator.Classify.{
  Parser, classify, scan, refuse, refusal, accepted, noted, broken_rule, rule_verdict,
  isolation_verdict, ruled,
}
use dsql_emulator.Classify.Columns.{present}
use dsql_emulator.Classify.Isolation.{unsupported_isolation}

-- The same messages, with the fields of each in any order.
mutual
  pub data Same : Tree → Tree → Type 0 where
    same :
        (name : Text) (view : Option View) {ks ls : Trees}
        → AllSame ks ls
        → Same (msg name view ks) (msg name view ls)

  pub data AllSame : Trees → Trees → Type 0 where
    none_left : AllSame nil nil
    both : {t u : Tree} {ks ls : Trees} → Same t u → AllSame ks ls → AllSame (cons t ks) (cons u ls)
    swapped : (t u : Tree) (ks : Trees) → AllSame (cons t (cons u ks)) (cons u (cons t ks))
    through : {ks ls ms : Trees} → AllSame ks ls → AllSame ls ms → AllSame ks ms

intersects-append :
    (want xs ys : List Text) → intersects want (xs ++ ys) ≡ intersects want xs || intersects want ys
unfolding intersects
intersects-append want [] ys = refl
intersects-append want (x ∷ xs) ys = ground (arith, intersects-append want xs ys)

mutual
  unfolding function_names

  calls-Same :
      (want : List Text) {t u : Tree}
      → Same t u
      → intersects want (function_names t) ≡ intersects want (function_names u)
  calls-Same want (same name view {ks} {ls} p) = ground (
    arith,
    calls-AllSame want p,
    intersects-append want (called_in view) (function_names_in ks),
    intersects-append want (called_in view) (function_names_in ls),
  )

  calls-AllSame :
      (want : List Text) {ks ls : Trees}
      → AllSame ks ls
      → intersects want (function_names_in ks) ≡ intersects want (function_names_in ls)
  calls-AllSame want none_left = refl
  calls-AllSame want (both {t} {u} {ks} {ls} p q) = ground (
    arith,
    calls-Same want p,
    calls-AllSame want q,
    intersects-append want (function_names t) (function_names_in ks),
    intersects-append want (function_names u) (function_names_in ls),
  )
  calls-AllSame want (swapped t u ks) = ground (
    arith,
    intersects-append want (function_names t) (function_names u ++ function_names_in ks),
    intersects-append want (function_names u) (function_names t ++ function_names_in ks),
    intersects-append want (function_names u) (function_names_in ks),
    intersects-append want (function_names t) (function_names_in ks),
  )
  calls-AllSame want (through p q) = calls-AllSame want p ∙ calls-AllSame want q

mutual
  unfolding contains_node

  contains-Same :
      (want : List Text) {t u : Tree} → Same t u → contains_node want t ≡ contains_node want u
  contains-Same want (same name view p) = ground (arith, contains-AllSame want p)

  contains-AllSame :
      (want : List Text) {ks ls : Trees}
      → AllSame ks ls
      → contains_node_in want ks ≡ contains_node_in want ls
  contains-AllSame want none_left = refl
  contains-AllSame want (both p q) = ground (arith, contains-Same want p, contains-AllSame want q)
  contains-AllSame want (swapped t u ks) = ground arith
  contains-AllSame want (through p q) = contains-AllSame want p ∙ contains-AllSame want q

-- A statement that is the same but for the order of fields.
pub record IsSame (m n : Node) : Type 0 where
  pub statement : m.statement ≡ n.statement
  pub tree : Same m.tree n.tree

pub matches_same : (r : Rule) (m n : Node) → IsSame m n → matches r m ≡ matches r n
unfolding matches
matches_same r m n e =
    rw (e.statement, calls-Same r.function e.tree, contains-Same r.contains e.tree)

broken_rule_same :
    (async : Bool) (rules : List Rule) (m n : Node)
    → IsSame m n
    → broken_rule async rules m ≡ broken_rule async rules n
unfolding broken_rule
broken_rule_same async [] m n e = refl
broken_rule_same async (r ∷ rules) m n e =
    ground (arith, matches_same r m n e, broken_rule_same async rules m n e)

-- Results that differ in the text of a refusal only.
pub record Agrees (q r : Result) : Type 0 where
  pub rule_id : q.verdict.rule_id ≡ r.verdict.rule_id
  pub code : q.verdict.code ≡ r.verdict.code
  pub kinds : q.kinds ≡ r.kinds
  pub tables : q.tables ≡ r.tables

-- Statement by statement.
abbrev pub AllIsSame : List Node → List Node → Type 0
AllIsSame [] [] = Unit {0}
AllIsSame (m ∷ ms) (n ∷ ns) = IsSame m n × AllIsSame ms ns
AllIsSame _ _ = true ≡ false

noted-Agrees :
    (q r : Result) (m n : Node) → Agrees q r → IsSame m n → Agrees (noted q m) (noted r n)
noted-Agrees q r m n a e = record {
  rule_id = a.rule_id;
  code = a.code;
  kinds = rw (a.kinds, e.statement);
  tables = rw (a.tables, e.statement);
}

-- Refusals by the same rule.
abbrev pub SameRefusal : Option Verdict → Option Verdict → Type 0
SameRefusal none none = Unit {0}
SameRefusal (some v) (some w) = (v.rule_id ≡ w.rule_id) × (v.code ≡ w.code)
SameRefusal _ _ = true ≡ false

ruled_same : (m n : Node) (o p : Option Rule) → o ≡ p → SameRefusal (ruled m o) (ruled n p)
unfolding rule_verdict
ruled_same m n none none e = tt
ruled_same m n none (some q) e = ground arith
ruled_same m n (some r) none e = ground arith
ruled_same m n (some r) (some q) e = ground arith

isolated_same :
    (o p : Option Text) (x y : Option Verdict)
    → o ≡ p
    → SameRefusal x y
    → SameRefusal
        (elim o [ some level ↦ some (isolation_verdict level) | none ↦ x ])
        (elim p [ some level ↦ some (isolation_verdict level) | none ↦ y ])
unfolding isolation_verdict
isolated_same none none x y e s = s
isolated_same none (some l) x y e s = ground arith
isolated_same (some k) none x y e s = ground arith
isolated_same (some k) (some l) x y e s = (refl, refl)

refuse_same :
    (async : Bool) (rs : Ruleset) (m n : Node)
    → IsSame m n
    → SameRefusal (refuse async rs m) (refuse async rs n)
unfolding refuse
refuse_same async rs m n e =
    isolated_same (unsupported_isolation m.statement rs.isolation.supported)
      (unsupported_isolation n.statement rs.isolation.supported) _ _
      (ap (λ s. unsupported_isolation s rs.isolation.supported) e.statement)
      (ruled_same m n _ _ (broken_rule_same async rs.unsupported m n e))

settled_same :
    (x y : Option Verdict) (q r : Result)
    → SameRefusal x y
    → Agrees q r
    → Agrees (elim x [ some v ↦ refusal v | none ↦ q ]) (elim y [ some v ↦ refusal v | none ↦ r ])
settled_same none none q r s a = a
settled_same none (some w) q r s a = ground arith
settled_same (some v) none q r s a = ground arith
settled_same (some v) (some w) q r s a = record {
  rule_id = s.0;
  code = s.1;
  kinds = refl;
  tables = refl;
}

scan-Agrees :
    (async : Bool) (rs : Ruleset) (q r : Result) (ms ns : List Node)
    → Agrees q r
    → AllIsSame ms ns
    → Agrees (scan async rs q ms) (scan async rs r ns)
unfolding scan
scan-Agrees async rs q r [] [] a e = a
scan-Agrees async rs q r [] (n ∷ ns) a e = ground arith
scan-Agrees async rs q r (m ∷ ms) [] a e = ground arith
scan-Agrees async rs q r (m ∷ ms) (n ∷ ns) a (e, es) =
    settled_same (refuse async rs m) (refuse async rs n) _ _ (refuse_same async rs m n e)
      (scan-Agrees async rs (noted q m) (noted r n) ms ns (noted-Agrees q r m n a e) es)

-- Two parsers that give the same statements but for the order in which the fields of messages are walked
-- lead to the same result of every text, but for the wording of a refusal: the same rule and code, and
-- the same kinds and relations.
pub classify-Agrees :
    (parse other : Parser) (rs : Ruleset) (async : Bool) (sql : Text) (ms ns : List (Option Node))
    (q r : Result)
    → parse sql ≡ some ms
    → other sql ≡ some ns
    → AllIsSame (present ms) (present ns)
    → classify parse rs async sql ≡ some q
    → classify other rs async sql ≡ some r
    → Agrees q r
unfolding classify
classify-Agrees parse other rs async sql ms ns q r a b e c d =
    let agrees =
      scan-Agrees async rs accepted accepted (present ms) (present ns)
        (record { rule_id = refl; code = refl; kinds = refl; tables = refl }) e in
    let left : scan async rs accepted (present ms) ≡ q = ground (arith, a, c) in
    let right : scan async rs accepted (present ns) ≡ r = ground (arith, b, d) in
    subst (λ (x : Result). Agrees q x) right
      (subst (λ (x : Result). Agrees x (scan async rs accepted (present ns))) left agrees)
