-- ===== src/Rewrite/Ordinal.antt =====
-- The statement that `stripAsync` of internal/proxy/rewrite.go says the job belongs to.
use dsql_emulator.Prelude.{
  ℕ, zero, suc, ◌+◌, ◌<◌, ◌≡◌, refl, true, List, [], ◌∷◌, Option, false, some, Text, get_elem?,
  arith, Option-cases, inl, inr,
}
use dsql_emulator.Rewrite.Forms.{
  has_async, keyword_found, keyword_absent, IsSplit, statements-IsSplit,
}
use dsql_emulator.Rewrite.{Token, statements, async_keyword, first_async, strip_async}

-- The first statement, of those numbered from `start` on, that has the keyword has the number `k`.
pub record IsFirst (sql : Text) (ss : List (List Token)) (start k : ℕ) : Type 0 where
  pub at : ℕ
  pub same : k ≡ start + at
  pub statement : List Token
  pub there : get_elem? ss at ≡ some statement
  pub place : ℕ
  pub has_keyword : has_async sql statement place ≡ true
  pub none_before :
      (j i : ℕ) (earlier : List Token)
      → j < at
      → get_elem? ss j ≡ some earlier
      → has_async sql earlier i ≡ false

after_none :
    (sql : Text) (s : List Token) (ss : List (List Token)) (start k : ℕ)
    → ((i : ℕ) → has_async sql s i ≡ false)
    → IsFirst sql ss (start + 1) k
    → IsFirst sql (s ∷ ss) start k
after_none sql s ss start k n f = record {
  at = suc f.at;
  same = omega (arith, f.same);
  statement = f.statement;
  there = f.there;
  place = f.place;
  has_keyword = f.has_keyword;
  none_before = before;
}
  where
    before :
        (j i : ℕ) (earlier : List Token)
        → j < suc f.at
        → get_elem? (s ∷ ss) j ≡ some earlier
        → has_async sql earlier i ≡ false
    before zero i earlier l g = ground (arith, n i, g)
    before (suc j) i earlier l g = f.none_before j i earlier (omega (arith, l)) g

first_async-IsFirst :
    (sql : Text) (start : ℕ) (ss : List (List Token)) (k : ℕ)
    → first_async sql start ss ≡ some k
    → IsFirst sql ss start k
unfolding first_async
first_async-IsFirst sql start [] k h = ground arith
first_async-IsFirst sql start (s ∷ ss) k h = elim (Option-cases (async_keyword sql s)) [
  | inl p ↦
      after_none sql s ss start k (λ i. keyword_absent sql s i p)
        (first_async-IsFirst sql (start + 1) ss k (ground (arith, p, h)))
  | inr (i, p) ↦ record {
    at = 0;
    same = ground (arith, p, h);
    statement = s;
    there = refl;
    place = i;
    has_keyword = keyword_found sql s i p;
    none_before = λ j i earlier l g. ground (arith, l);
  }
]

-- The place of the first, among the statements between the semicolons, that has the keyword.
pub record IsOrdinal (sql : Text) (ts : List Token) (k : ℕ) : Type 0 where
  pub parts : List (List Token)
  pub split : IsSplit ts parts
  pub first : IsFirst sql parts 0 k

-- When a text is rewritten, the ordinal that comes with it is the place, among the statements between its
-- semicolons and with the empty ones counted, of one that has the ASYNC keyword, and no statement before
-- that one has it.
pub strip_async-IsFirst :
    (scan : Text → Option (List Token)) (sql : Text) (ts : List Token) (v : Text × ℕ)
    → scan sql ≡ some ts
    → strip_async scan sql ≡ some v
    → IsOrdinal sql ts v.1
unfolding strip_async
strip_async-IsFirst scan sql ts v e h = record {
  parts = statements ts;
  split = statements-IsSplit ts;
  first =
      first_async-IsFirst sql 0 (statements ts) v.1
        (ground (arith, e, h, Option-cases (first_async sql 0 (statements ts))));
}
