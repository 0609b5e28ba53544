-- ===== src/Classify/Reasons.antt =====
-- Which statement of a refused text the refusal is about, and which rule.
use dsql_emulator.Prelude.{
  ℕ, suc, ◌≡◌, refl, Bool, true, false, List, [], ◌∷◌, Option, none, some, arith, Text,
  Option-cases, Bool-cases, inl, inr, get_elem?, take, subst,
}
use dsql_emulator.Verdict.{Verdict, Result}
use dsql_emulator.Rules.{Rule, Ruleset}
use dsql_emulator.Classify.{
  Parser, classify, scan, refuse, refusal, accepted, noted, broken_rule, rule_verdict,
  isolation_verdict,
}
use dsql_emulator.Classify.Syntax.{Node}
use dsql_emulator.Classify.Columns.{present}
use dsql_emulator.Classify.Isolation.{unsupported_isolation}
use dsql_emulator.Classify.Violations.{breaks, breaks_any, violates, any_violates, is_some-refuse}

-- An isolation level comes before the rules, and a rule before those after it.
pub data Reason (async : Bool) (rs : Ruleset) (n : Node) (v : Verdict) : Type 0 where
  isolation :
      (level : Text)
      → unsupported_isolation n.statement rs.isolation.supported ≡ some level
      → v ≡ isolation_verdict level
      → Reason async rs n v
  rule :
      (k : ℕ) (r : Rule)
      → unsupported_isolation n.statement rs.isolation.supported ≡ none
      → get_elem? rs.unsupported k ≡ some r
      → breaks async r n ≡ true
      → breaks_any async (take k rs.unsupported) n ≡ false
      → v ≡ rule_verdict r n
      → Reason async rs n v

-- The first statement that violates the ruleset, and why.
pub record IsRefusedFor (async : Bool) (rs : Ruleset) (ns : List Node) (v : Verdict) : Type 0 where
  pub at : ℕ
  pub node : Node
  pub there : get_elem? ns at ≡ some node
  pub clean_before : any_violates async rs (take at ns) ≡ false
  pub reason : Reason async rs node v

first_broken :
    (async : Bool) (rules : List Rule) (n : Node) {r : Rule}
    → broken_rule async rules n ≡ some r
    → (k : ℕ) × (get_elem? rules k ≡ some r)
      × (breaks async r n ≡ true)
      × (breaks_any async (take k rules) n ≡ false)
unfolding broken_rule breaks_any
first_broken async [] n h = ground arith
first_broken async (q ∷ rules) n {r = r} h = elim (Bool-cases (breaks async q n)) [
  | inl b ↦ (0, ground (arith, b, h), ground (arith, b, h), refl)
  | inr b ↦
      let (k, p, c, d) = first_broken async rules n {r = r} (ground (arith, b, h)) in
      (suc k, p, c, ground (arith, b, d))
]

refuse-Reason :
    (async : Bool) (rs : Ruleset) (n : Node) {v : Verdict}
    → refuse async rs n ≡ some v
    → Reason async rs n v
unfolding refuse
refuse-Reason async rs n {v = v} h =
    elim (Option-cases (unsupported_isolation n.statement rs.isolation.supported)) [
      | inl p ↦ elim (Option-cases (broken_rule async rs.unsupported n)) [
        | inl q ↦ ground (arith, p, q, h)
        | inr (r, q) ↦
            let (k, a, b, c) = first_broken async rs.unsupported n q in
            rule k r p a b c (ground (arith, p, q, h))
      ]
      | inr (level, p) ↦ isolation level p (ground (arith, p, h))
    ]

later :
    {async : Bool} {rs : Ruleset} {n : Node} {ns : List Node} {v : Verdict}
    → violates async rs n ≡ false
    → IsRefusedFor async rs ns v
    → IsRefusedFor async rs (n ∷ ns) v
unfolding any_violates
later c f = record {
  at = suc f.at;
  node = f.node;
  there = f.there;
  clean_before = ground (arith, c, f.clean_before);
  reason = f.reason;
}

scan-IsRefusedFor :
    (async : Bool) (rs : Ruleset) (acc : Result) (ns : List Node)
    → any_violates async rs ns ≡ true
    → IsRefusedFor async rs ns (scan async rs acc ns).verdict
      × (scan async rs acc ns ≡ refusal (scan async rs acc ns).verdict)
unfolding scan any_violates
scan-IsRefusedFor async rs acc [] h = ground arith
scan-IsRefusedFor async rs acc (n ∷ ns) h = elim (Option-cases (refuse async rs n)) [
  | inl p ↦
      let clean : violates async rs n ≡ false = ground (arith, p, is_some-refuse async rs n) in
      let (f, same) = scan-IsRefusedFor async rs (noted acc n) ns (ground (arith, clean, h)) in
      rw (p, scan) (later clean f, same)
  | inr (v, p) ↦
      rw (p, scan)
        (
          record {
            at = 0;
            node = n;
            there = refl;
            clean_before = refl;
            reason = refuse-Reason async rs n p;
          },
          refl,
        )
]

-- A text one of whose statements violates the ruleset is refused for the first that does, and its result
-- has neither kinds nor relations; the refusal is for an isolation level that is not supported, and
-- otherwise for the first rule that the statement breaks.
pub classify-IsRefusedFor :
    (parse : Parser) (rs : Ruleset) (async : Bool) (sql : Text) (nodes : List (Option Node))
    (r : Result)
    → parse sql ≡ some nodes
    → any_violates async rs (present nodes) ≡ true
    → classify parse rs async sql ≡ some r
    → IsRefusedFor async rs (present nodes) r.verdict × (r.kinds ≡ []) × (r.tables ≡ [])
unfolding classify
classify-IsRefusedFor parse rs async sql nodes r p h e =
    let same : scan async rs accepted (present nodes) ≡ r = ground (arith, p, e) in
    let (f, g) = scan-IsRefusedFor async rs accepted (present nodes) h in
    (
      subst (λ (x : Result). IsRefusedFor async rs (present nodes) x.verdict) same f,
      ground (arith, same, g),
      ground (arith, same, g),
    )
