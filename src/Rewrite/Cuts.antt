-- ===== src/Rewrite/Cuts.antt =====
-- What `stripAsync` of internal/proxy/rewrite.go leaves out of a text.
use dsql_emulator.Prelude.{
  ℕ, ◌+◌, ◌≤◌, ◌≡◌, subst, true, false, List, [], ◌∷◌, ◌++◌, Option, none, some, Text, lit,
  pos_part, slice, drop, equal_fold, get_elem?, length, arith, Option-cases, inl, inr,
}
use dsql_emulator.Rewrite.{
  Token, statements, async_keyword, token_at, Cut, cuts, cut_at, first_async, splice, strip_async,
}
use dsql_emulator.Rewrite.Forms.{
  has_async, has_async_after, followed, keyword_found, keyword_absent, IsSplit, statements-IsSplit,
}
use dsql_emulator.Rewrite.Scanned.{
  scanned, end_of, all_scanned, end_of_lower, statements_scanned, token_bounds, next_bounds,
}

-- The text from `prev` on, for the statements that are left. Of one that has the keyword, what is left out
-- runs from the start of the keyword, an ASYNC in whatever case, to the start of the token after it; of
-- one that has not, nothing.
pub data Stripped (sql : Text) : ℕ → List (List Token) → Text → Type 0 where
  rest : (prev : ℕ) → Stripped sql prev [] (drop prev sql)
  keep :
      (prev : ℕ) (s : List Token) (ss : List (List Token)) (out : Text)
      → ((i : ℕ) → has_async sql s i ≡ false)
      → Stripped sql prev ss out
      → Stripped sql prev (s ∷ ss) out
  cut :
      (prev : ℕ) (s : List Token) (ss : List (List Token)) (i : ℕ) (t u : Token) (out : Text)
      → has_async sql s i ≡ true
      → get_elem? s i ≡ some t
      → get_elem? s (i + 1) ≡ some u
      → prev ≤ pos_part t.start
      → pos_part t.start ≤ pos_part t.stop
      → pos_part t.stop ≤ pos_part u.start
      → pos_part u.start ≤ length sql
      → equal_fold (slice sql (pos_part t.start) (pos_part t.stop)) (lit "async") ≡ true
      → Stripped sql (pos_part u.start) ss out
      → Stripped sql prev (s ∷ ss) (slice sql prev (pos_part t.start) ++ out)

-- The whole text, by the statements between its semicolons.
pub record IsStripped (sql : Text) (ts : List Token) (out : Text) : Type 0 where
  pub parts : List (List Token)
  pub split : IsSplit ts parts
  pub pieces : Stripped sql 0 parts out

has_token :
    (sql : Text) (ts : List Token) (i : ℕ)
    → has_async sql ts i ≡ true
    → get_elem? ts i ≡ none
    → true ≡ false
unfolding has_async has_async_after
has_token sql ts i h g = ground (arith, h, g)

has_next :
    (sql : Text) (ts : List Token) (i : ℕ)
    → has_async sql ts i ≡ true
    → get_elem? ts (i + 1) ≡ none
    → true ≡ false
unfolding has_async has_async_after followed token_at
has_next sql ts i h g = ground (arith, h, g)

has_spelled :
    (sql : Text) (ts : List Token) (i : ℕ) (t : Token)
    → has_async sql ts i ≡ true
    → get_elem? ts i ≡ some t
    → equal_fold (slice sql (pos_part t.start) (pos_part t.stop)) (lit "async") ≡ true
unfolding has_async has_async_after
has_spelled sql ts i t h g = ground (arith, h, g)

-- The cut of one statement, and then those of others.
cut_Stripped :
    (sql : Text) (prev low : ℕ) (ts : List Token) (ss : List (List Token)) (t u : Token) (i : ℕ)
    (later : List Cut)
    → scanned (length sql) low ts ≡ true
    → prev ≤ low
    → has_async sql ts i ≡ true
    → get_elem? ts i ≡ some t
    → get_elem? ts (i + 1) ≡ some u
    → ((p : ℕ) → p ≤ end_of low ts → Stripped sql p ss (splice sql p later))
    → Stripped sql prev (ts ∷ ss) (splice sql prev (cut_at ts i (some t) ++ later))
unfolding splice
cut_Stripped sql prev low ts ss t u i later s l a g g' next =
    let n : ℕ = length sql in
    let at = token_bounds n low ts i t s g in
    let after = token_bounds n low ts (i + 1) u s g' in
    let between =
      next_bounds n low ts i t u s g (subst (λ j. get_elem? ts j ≡ some u) (omega arith) g') in
    let end = (end_of_lower n low ts s).1 in
    rw g' (
      cut prev ts ss i t u _ a g g' (omega (arith, l, at)) (omega (arith, at)) between
        (omega (arith, after, end)) (has_spelled sql ts i t a g) (next _ (omega (arith, after))))

cuts-Stripped :
    (sql : Text) (prev low : ℕ) (ss : List (List Token))
    → all_scanned (length sql) low ss ≡ true
    → prev ≤ low
    → Stripped sql prev ss (splice sql prev (cuts sql ss))
unfolding cuts all_scanned
cuts-Stripped sql prev low [] s l = unfold splice in rest prev
cuts-Stripped sql prev low (ts ∷ ss) s l =
    let here : scanned (length sql) low ts ≡ true = ground (arith, s) in
    let later : all_scanned (length sql) (end_of low ts) ss ≡ true = ground (arith, s) in
    let next : (p : ℕ) → p ≤ end_of low ts → Stripped sql p ss (splice sql p (cuts sql ss)) =
      λ p h. cuts-Stripped sql p (end_of low ts) ss later h in
    elim (Option-cases (async_keyword sql ts)) [
      | inl p ↦ rw p (
          keep prev ts ss _ (λ i. keyword_absent sql ts i p)
            (next prev (omega (arith, l, (end_of_lower (length sql) low ts here).0))))
      | inr (i, p) ↦
          let has = keyword_found sql ts i p in
          elim (Option-cases (get_elem? ts i)) [
            | inl q ↦ ground (arith, has_token sql ts i has q)
            | inr (t, q) ↦ elim (Option-cases (get_elem? ts (i + 1))) [
              | inl r ↦ ground (arith, has_next sql ts i has r)
              | inr (u, r) ↦
                  rw (p, q)
                    (cut_Stripped sql prev low ts ss t u i (cuts sql ss) here l has q r next)
            ]
          ]
    ]

-- When a text is rewritten, and the scanner gives its tokens in their order, apart and within the text,
-- the text that goes to the upstream is the client's less one piece for each of the statements, between
-- semicolons, that has the ASYNC keyword: CREATE INDEX, CREATE UNIQUE INDEX or ALTER TABLE, then ASYNC in
-- whatever case, then a name or, after CREATE, IF or ON. The piece runs from the start of that ASYNC to
-- the start of the token after it.
pub strip_async-Stripped :
    (scan : Text → Option (List Token)) (sql : Text) (ts : List Token) (v : Text × ℕ)
    → scan sql ≡ some ts
    → scanned (length sql) 0 ts ≡ true
    → strip_async scan sql ≡ some v
    → IsStripped sql ts v.0
unfolding strip_async
strip_async-Stripped scan sql ts v e s h =
    let out : splice sql 0 (cuts sql (statements ts)) ≡ v.0 =
      ground (arith, e, h, Option-cases (first_async sql 0 (statements ts))) in
    record {
      parts = statements ts;
      split = statements-IsSplit ts;
      pieces = subst (Stripped sql 0 (statements ts)) out (
          cuts-Stripped sql 0 0 (statements ts) (statements_scanned (length sql) 0 ts s)
            (ground arith));
    }
