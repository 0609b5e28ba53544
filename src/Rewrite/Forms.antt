-- ===== src/Rewrite/Forms.antt =====
-- What has to stand where for a statement to carry the ASYNC keyword, and what a text's statements are:
-- `asyncKeyword`, `isAsync` and `statements` of internal/proxy/rewrite.go described without their control
-- flow.
use dsql_emulator.Prelude.{
  ℕ, ◌+◌, ◌≡◌, refl, Bool, true, false, not, ◌&&◌, ◌||◌, List, [], ◌∷◌, ◌++◌, Option, none, some,
  leb, ◌==◌, Text, lit, is_negative, pos_part, slice, equal_fold, get_elem?, length, arith,
  Option-cases, inl, inr, Bool-cases,
}
use dsql_emulator.Rewrite.{
  Token, TokenKind, semicolon, create, unique, index, ident, if_p, on, alter, table, nul,
  other_token, is_semicolon, is_ident, is_index, is_table, is_unique, follows_async, put_first,
  statements, token_at, is_async, by_opening, create_keyword, alter_keyword, async_keyword,
}

-- A token that is an identifier within the text and spelled ASYNC, in whatever case.
abbrev pub spelled : Text → Option Token → Bool
spelled sql none = false
spelled sql (some t) =
    equal_fold (slice sql (pos_part t.start) (pos_part t.stop)) (lit "async")
    && is_ident t.kind
    && not (is_negative t.start)
    && (is_negative t.stop || leb (pos_part t.stop) (length sql))

abbrev pub is_create : TokenKind → Bool
is_create create = true
is_create _ = false

abbrev pub is_alter : TokenKind → Bool
is_alter alter = true
is_alter _ = false

-- CREATE INDEX, CREATE UNIQUE INDEX or ALTER TABLE, by the first token and those up to place `i`.
unfoldable pub opened : TokenKind → List Token → ℕ → Bool
opened k ts i =
    (is_create k && i == 2 && is_index (token_at ts 1))
    || (is_create k && i == 3 && is_unique (token_at ts 1) && is_index (token_at ts 2))
    || (is_alter k && i == 2 && is_table (token_at ts 1))

-- A name follows, or after CREATE also IF or ON.
unfoldable pub followed : TokenKind → List Token → ℕ → Bool
followed k ts i =
    is_ident (token_at ts (i + 1)) || (is_create k && follows_async (token_at ts (i + 1)))

unfoldable pub has_async_after : TokenKind → Text → List Token → ℕ → Bool
has_async_after k sql ts i = opened k ts i && spelled sql (get_elem? ts i) && followed k ts i

-- The statement has the keyword at place `i`.
unfoldable pub has_async : Text → List Token → ℕ → Bool
has_async sql ts i = has_async_after (token_at ts 0) sql ts i

is_async-spelled :
    (sql : Text) (ts : List Token) (i : ℕ) → is_async sql ts i ≡ spelled sql (get_elem? ts i)
unfolding is_async
is_async-spelled sql ts i = ground (arith, Option-cases (get_elem? ts i))

opening_some :
    (k : TokenKind) (sql : Text) (ts : List Token) (i : ℕ)
    → by_opening k sql ts ≡ some i
    → has_async_after k sql ts i ≡ true
unfolding by_opening create_keyword alter_keyword has_async_after opened followed
opening_some create sql ts i h =
    ground (arith, is_async-spelled sql ts 2, is_async-spelled sql ts 3)
opening_some alter sql ts i h = ground (arith, is_async-spelled sql ts 2)
opening_some unique sql ts i h = ground arith
opening_some index sql ts i h = ground arith
opening_some ident sql ts i h = ground arith
opening_some if_p sql ts i h = ground arith
opening_some on sql ts i h = ground arith
opening_some table sql ts i h = ground arith
opening_some semicolon sql ts i h = ground arith
opening_some nul sql ts i h = ground arith
opening_some other_token sql ts i h = ground arith

opening_none :
    (k : TokenKind) (sql : Text) (ts : List Token) (i : ℕ)
    → by_opening k sql ts ≡ none
    → has_async_after k sql ts i ≡ false
unfolding by_opening create_keyword alter_keyword has_async_after opened followed
opening_none create sql ts i h =
    ground (arith, is_async-spelled sql ts 2, is_async-spelled sql ts 3)
opening_none alter sql ts i h = ground (arith, is_async-spelled sql ts 2)
opening_none unique sql ts i h = ground arith
opening_none index sql ts i h = ground arith
opening_none ident sql ts i h = ground arith
opening_none if_p sql ts i h = ground arith
opening_none on sql ts i h = ground arith
opening_none table sql ts i h = ground arith
opening_none semicolon sql ts i h = ground arith
opening_none nul sql ts i h = ground arith
opening_none other_token sql ts i h = ground arith

pub keyword_found :
    (sql : Text) (ts : List Token) (i : ℕ)
    → async_keyword sql ts ≡ some i
    → has_async sql ts i ≡ true
unfolding async_keyword has_async
keyword_found sql ts i h = opening_some (token_at ts 0) sql ts i h

pub keyword_absent :
    (sql : Text) (ts : List Token) (i : ℕ)
    → async_keyword sql ts ≡ none
    → has_async sql ts i ≡ false
unfolding async_keyword has_async
keyword_absent sql ts i h = opening_none (token_at ts 0) sql ts i h

-- The parts of a sequence of tokens between its semicolons, none of which has one in it.
unfoldable pub no_semicolon : List Token → Bool
no_semicolon [] = true
no_semicolon (t ∷ ts) = not (is_semicolon t.kind) && no_semicolon ts

pub data IsSplit : List Token → List (List Token) → Type 0 where
  only : (s : List Token) → no_semicolon s ≡ true → IsSplit s (s ∷ [])
  next :
      (s : List Token) (t : Token) (ts : List Token) (ss : List (List Token))
      → no_semicolon s ≡ true
      → is_semicolon t.kind ≡ true
      → IsSplit ts ss
      → IsSplit (s ++ t ∷ ts) (s ∷ ss)

put_first-IsSplit :
    (t : Token) (ts : List Token) (ss : List (List Token))
    → is_semicolon t.kind ≡ false
    → IsSplit ts ss
    → IsSplit (t ∷ ts) (put_first t ss)
unfolding no_semicolon
put_first-IsSplit t _ _ n (only s p) = only (t ∷ s) (ground (arith, n, p))
put_first-IsSplit t _ _ n (next s u us ss p q r) = next (t ∷ s) u us ss (ground (arith, n, p)) q r

pub statements-IsSplit : (ts : List Token) → IsSplit ts (statements ts)
unfolding statements no_semicolon
statements-IsSplit [] = only [] refl
statements-IsSplit (t ∷ ts) = elim (Bool-cases (is_semicolon t.kind)) [
  | inl e ↦ rw (e, statements) (next [] t ts (statements ts) refl e (statements-IsSplit ts))
  | inr e ↦ rw (e, statements) (put_first-IsSplit t ts (statements ts) e (statements-IsSplit ts))
]
