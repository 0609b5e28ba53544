-- ===== src/Session/Analyzed.antt =====
-- A session whose conflict analysis is that of internal/occ: what the shadow of a refused statement is, and
-- the values that it is run with.
mod Witnesses
use dsql_emulator.Prelude.{
  ℕ, ◌≡◌, refl, ap, sym, ◌∙◌, subst, Bool, true, false, List, [], ◌∷◌, map, length, is_nil, Option,
  none, some, is_some, arith, if◌then◌else◌, Text, lit, ℤ, pos, negsuc, Option-cases, inl, inr,
}
use dsql_emulator.Occ.{Intent}
use dsql_emulator.Occ.Renumber.{renumber_params}
use dsql_emulator.Occ.Positions.{nth}
use dsql_emulator.Occ.Tree.{Tree, Fields, msg, field, refs_of, renumber_tree}
use dsql_emulator.Occ.Analyze.{
  Statement, update_stmt, delete_stmt, insert_stmt, select_stmt, other_stmt, Parser, Deparser, node,
  res_target, count_star, list_field, optional, select_node, count_select, with_shadow, shadow_of,
  shadow_intent, count_intent, insert_intent, intent_of, only_statement, analyze,
}
use dsql_emulator.Occ.Relabelled.{unnumbered, IsRenumbered, renumber_tree-IsRenumbered}
use dsql_emulator.Session.Shadow.{pick_params}
use dsql_emulator.Session.ShadowValues.{bound_at, format_at, renumbered_values}

-- SELECT count(*) FROM the relation and the other items, under the condition where there is one.
abbrev pub count_of : Tree → List Tree → Option Tree → Tree
unfolding list_field
count_of rel others condition = node (lit "select_stmt") (
    msg (lit "SelectStmt")
      ((lit "limit_option", lit "LIMIT_OPTION_DEFAULT") ∷ (lit "op", lit "SETOP_NONE") ∷ [])
      (field (lit "target_list") (res_target count_star) (
        field (lit "from_clause") (node (lit "range_var") rel)
          (list_field (lit "from_clause") others (optional (lit "where_clause") condition)))))

-- The query that stands for a statement: for an UPDATE or a DELETE without RETURNING the count of the rows of
-- its relation, joined with the others that it names, under its condition; and for a SELECT that has locking
-- clauses that SELECT with its other fields only.
pub data IsReadOf : Statement → Tree → Type 0 where
  count_updated :
      (rel : Tree) (from : List Tree) (condition : Option Tree)
      → IsReadOf (update_stmt [] (some rel) from condition) (count_of rel from condition)
  count_deleted :
      (rel : Tree) (using : List Tree) (condition : Option Tree)
      → IsReadOf (delete_stmt [] (some rel) using condition) (count_of rel using condition)
  without_locks :
      (l : Tree) (locking : List Tree) (scalars : List (Text × Text)) (fields : Fields)
      → IsReadOf
          (select_stmt (l ∷ locking) scalars fields)
          (node (lit "select_stmt") (msg (lit "SelectStmt") scalars fields))

-- The shadow of an intent: the text of that query with its parameters renumbered.
pub record IsShadowOf (deparse : Deparser) (t : Tree) (i : Intent) : Type 0 where
  pub sent : Tree
  pub text : deparse sent ≡ some i.shadow
  pub renumbered : IsRenumbered t (i.params, sent)
  pub uncounted : i.rows ≡ negsuc 0

shadow_intent-IsShadowOf :
    (deparse : Deparser) (tag : Text) (rowset : Bool) (t : Tree) (i : Intent)
    → shadow_intent deparse tag t rowset ≡ some i
    → IsShadowOf deparse t i
unfolding shadow_intent
shadow_intent-IsShadowOf deparse tag rowset t i e = elim (Option-cases (renumber_tree t)) [
  | inl p ↦ ground (arith, p, e)
  | inr (v, p) ↦ elim (Option-cases (deparse v.1)) [
    | inl q ↦ ground (arith, p, q, e)
    | inr (shadow, q) ↦
        let made : Intent = record {
          tag = tag;
          rows = negsuc 0;
          shadow = shadow;
          rowset = rowset;
          params = v.0;
        } in
        let same : made ≡ i = ground (arith, p, q, e) in
        subst (IsShadowOf deparse t) same (record {
          sent = v.1;
          text = q;
          renumbered = renumber_tree-IsRenumbered t v p;
          uncounted = refl;
        })
  ]
]

intent_of-IsReadOf :
    (deparse : Deparser) (s : Statement) (i : Intent)
    → intent_of deparse s ≡ some i
    → i.rows ≡ negsuc 0
    → (t : Tree) × IsReadOf s t × IsShadowOf deparse t i
unfolding intent_of count_intent select_node list_field count_select
intent_of-IsReadOf deparse (update_stmt [] none from condition) i e h = ground arith
intent_of-IsReadOf deparse (update_stmt [] (some rel) from condition) i e h =
    let t = count_select rel from condition in
    (
      t,
      count_updated rel from condition,
      shadow_intent-IsShadowOf deparse (lit "UPDATE") false t i e,
    )
intent_of-IsReadOf deparse (update_stmt (_ ∷ _) rel from condition) i e h = ground arith
intent_of-IsReadOf deparse (delete_stmt [] none using condition) i e h = ground arith
intent_of-IsReadOf deparse (delete_stmt [] (some rel) using condition) i e h =
    let t = count_select rel using condition in
    (
      t,
      count_deleted rel using condition,
      shadow_intent-IsShadowOf deparse (lit "DELETE") false t i e,
    )
intent_of-IsReadOf deparse (delete_stmt (_ ∷ _) rel using condition) i e h = ground arith
intent_of-IsReadOf deparse (insert_stmt returning on_conflict none) i e h = ground arith
intent_of-IsReadOf deparse (insert_stmt returning on_conflict (some [])) i e h = ground arith
intent_of-IsReadOf deparse (insert_stmt returning on_conflict (some (v ∷ values))) i e h =
    ground arith
intent_of-IsReadOf deparse (select_stmt [] scalars fields) i e h = ground arith
intent_of-IsReadOf deparse (select_stmt (l ∷ locking) scalars fields) i e h =
    let t = select_node [] scalars fields in
    (
      t,
      without_locks l locking scalars fields,
      shadow_intent-IsShadowOf deparse (lit "SELECT") true t i e,
    )
intent_of-IsReadOf deparse other_stmt i e h = ground arith

-- What is known of an analysed statement: it is the one of its text.
analyze-intent_of :
    (parse : Parser) (deparse : Deparser) (sql : Text) (s : Statement) (i : Intent)
    → parse sql ≡ some (some s ∷ [])
    → analyze parse deparse sql ≡ some i
    → intent_of deparse s ≡ some i
unfolding analyze intent_of
analyze-intent_of parse deparse sql s i p e = ground (arith, p, e)

-- The values that a shadow is run with: each parameter of the query that stands for the statement has, at its
-- number in the text that is sent, the value and the format that the client bound for it.
pub record HasClientValues (t : Tree) (values : List (Option Text)) (formats : List ℕ)
    (params : List (Option Text)) (codes : List ℕ) (sent : Tree) : Type 0 where
  pub numbers : List ℕ
  pub written : refs_of sent ≡ map pos numbers
  pub same_values : map (nth values) numbers ≡ map (bound_at params) (refs_of t)
  pub same_formats : map (nth formats) numbers ≡ map (format_at codes) (refs_of t)

-- When the analysis of a text that is one statement finds that its rows have to be counted or read, the text
-- of the shadow is that of a query in which nothing but the numbers of the parameters differs from this one:
-- the count of the rows of the relation under the statement's condition, for an UPDATE or a DELETE, and the
-- statement without its locking clauses, for a SELECT. Run with the values picked for its parameters from
-- those that the client bound, it has for each the client's value and format.
pub analyzed_values :
    (parse : Parser) (deparse : Deparser) (sql : Text) (s : Statement) (i : Intent)
    (params : List (Option Text)) (codes : List ℕ) (w : List (Option Text) × List ℕ)
    → parse sql ≡ some (some s ∷ [])
    → analyze parse deparse sql ≡ some i
    → i.rows ≡ negsuc 0
    → pick_params i.params params codes ≡ some w
    → (t : Tree) × (sent : Tree) × IsReadOf s t
      × (deparse sent ≡ some i.shadow)
      × (unnumbered sent ≡ unnumbered t)
      × HasClientValues t w.0 w.1 params codes sent
analyzed_values parse deparse sql s i params codes w p e h k =
    let (t, read, shadow) =
      intent_of-IsReadOf deparse s i (analyze-intent_of parse deparse sql s i p e) h in
    let r = shadow.renumbered in
    let same = renumbered_values (refs_of t) (i.params, r.numbers) params codes w r.renumbers k in
    (
      t,
      shadow.sent,
      read,
      shadow.text,
      r.only_numbers,
      record {
        numbers = r.numbers;
        written = r.written;
        same_values = same.0;
        same_formats = same.1;
      },
    )
