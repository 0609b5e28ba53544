-- ===== src/Rewrite.antt =====
-- internal/proxy/rewrite.go: the ASYNC keyword, job ids, and the server's version as a number.
-- The scanner of pg_query is a parameter, `scan`: it gives a text's tokens, each with its kind and the
-- offsets of its bytes. Of the kinds only those that the source names are told apart.
pub mod Scanned
pub mod Forms
pub mod Cuts
pub mod Ordinal
pub mod JobId
pub mod JobShape
mod Witnesses
use dsql_emulator.Prelude.{
  ℕ, zero, suc, ◌+◌, ◌*◌, ◌-◌, Bool, true, false, not, ◌&&◌, ◌||◌, List, [], ◌∷◌, ◌++◌, Option,
  none, some, ltb, ◌==◌, if◌then◌else◌, Text, lit, ℤ, is_negative, pos_part, slice, drop,
  equal_fold, get_elem?, length, itoa, plain_spaces, trim_space, split_dots,
}

pub data TokenKind : Type 0 where
  create unique index ident if_p on alter table semicolon nul other_token : TokenKind

pub record Token : Type 0 where
  pub kind : TokenKind
  pub start : ℤ
  pub stop : ℤ

abbrev is_semicolon : TokenKind → Bool
is_semicolon semicolon = true
is_semicolon _ = false

abbrev is_ident : TokenKind → Bool
is_ident ident = true
is_ident _ = false

abbrev is_unique : TokenKind → Bool
is_unique unique = true
is_unique _ = false

abbrev is_index : TokenKind → Bool
is_index index = true
is_index _ = false

abbrev is_table : TokenKind → Bool
is_table table = true
is_table _ = false

-- The index's name, IF NOT EXISTS, or an index with no name at all.
abbrev follows_async : TokenKind → Bool
follows_async ident = true
follows_async if_p = true
follows_async on = true
follows_async _ = false

abbrev put_first : Token → List (List Token) → List (List Token)
put_first t [] = (t ∷ []) ∷ []
put_first t (s ∷ ss) = (t ∷ s) ∷ ss

-- The statements between the semicolons; always one at least.
unfoldable pub statements : List Token → List (List Token)
statements [] = [] ∷ []
statements (t ∷ ts) = elim (is_semicolon t.kind) [
  | true ↦ [] ∷ statements ts
  | false ↦ put_first t (statements ts)
]

abbrev kind_or_nul : Option Token → TokenKind
kind_or_nul none = nul
kind_or_nul (some t) = t.kind

unfoldable pub token_at : List Token → ℕ → TokenKind
token_at ts i = kind_or_nul (get_elem? ts i)

-- `int(tok.GetEnd()) > len(sql)`.
abbrev beyond : ℤ → ℕ → Bool
beyond z n = not (is_negative z) && ltb n (pos_part z)

abbrev spells_async : Text → Option Token → Bool
spells_async sql none = false
spells_async sql (some t) =
    is_ident t.kind
    && not (is_negative t.start || beyond t.stop (length sql))
    && equal_fold (slice sql (pos_part t.start) (pos_part t.stop)) (lit "async")

unfoldable pub is_async : Text → List Token → ℕ → Bool
is_async sql ts i = spells_async sql (get_elem? ts i)

create_keyword : Text → List Token → ℕ → Option ℕ
create_keyword sql ts at =
    if not (is_index (token_at ts at)) || not (is_async sql ts (at + 1))
    then none
    else if follows_async (token_at ts (at + 2))
    then some (at + 1)
    else none

alter_keyword : Text → List Token → Option ℕ
alter_keyword sql ts =
    if not (is_table (token_at ts 1)) || not (is_async sql ts 2)
    then none
    else if is_ident (token_at ts 3)
    then some 2
    else none

by_opening : TokenKind → Text → List Token → Option ℕ
unfolding create_keyword alter_keyword
by_opening create sql ts = create_keyword sql ts (if is_unique (token_at ts 1) then 2 else 1)
by_opening alter sql ts = alter_keyword sql ts
by_opening _ sql ts = none

-- `none` is the source's -1.
unfoldable pub async_keyword : Text → List Token → Option ℕ
unfolding by_opening
async_keyword sql ts = by_opening (token_at ts 0) sql ts

pub record Cut : Type 0 where
  pub from : ℤ
  pub through : ℤ

abbrev through_of : Option Token → Token → ℤ
through_of none t = t.stop
through_of (some next) t = next.start

abbrev cut_at : List Token → ℕ → Option Token → List Cut
cut_at ts at none = []
cut_at ts at (some t) =
    record { from = t.start; through = through_of (get_elem? ts (at + 1)) t } ∷ []

abbrev cut_of : List Token → Option ℕ → List Cut
cut_of ts none = []
cut_of ts (some at) = cut_at ts at (get_elem? ts at)

unfoldable pub cuts : Text → List (List Token) → List Cut
cuts sql [] = []
cuts sql (ts ∷ rest) = cut_of ts (async_keyword sql ts) ++ cuts sql rest

-- The ordinal of the first statement that carries the keyword.
unfoldable pub first_async : Text → ℕ → List (List Token) → Option ℕ
first_async sql ordinal [] = none
first_async sql ordinal (ts ∷ rest) = elim (async_keyword sql ts) [
  | some at ↦ some ordinal
  | none ↦ first_async sql (ordinal + 1) rest
]

unfoldable pub splice : Text → ℕ → List Cut → Text
splice sql prev [] = drop prev sql
splice sql prev (c ∷ cs) = slice sql prev (pos_part c.from) ++ splice sql (pos_part c.through) cs

abbrev spliced : Text → List (List Token) → Option ℕ → Option (Text × ℕ)
spliced sql stmts none = none
spliced sql stmts (some found) = some (splice sql 0 (cuts sql stmts), found)

abbrev strip_tokens : Text → Option (List Token) → Option (Text × ℕ)
strip_tokens sql none = none
strip_tokens sql (some ts) = spliced sql (statements ts) (first_async sql 0 (statements ts))

-- The text with its ASYNC keywords cut out, and the statement that the job belongs to.
unfoldable pub strip_async : (Text → Option (List Token)) → Text → Option (Text × ℕ)
strip_async scan sql = strip_tokens sql (scan sql)

unfoldable pub job_marker : Text → Text
job_marker id = lit "/* dsql_job=" ++ (id ++ lit " */ ")

-- The closure `atoi` of `serverVersionNum`: 0 for what is no number. A number so long that Go's `int`
-- would wrap is left out.
number : ℕ → Text → ℕ
number n [] = n
number n (c ∷ s) = elim (ltb c b'0' || ltb b'9' c) [
  | true ↦ 0
  | false ↦ number (n * 10 + (c - b'0')) s
]

version_number : List Text → ℕ
unfolding number
version_number [] = 0
version_number (major ∷ []) = number 0 major * 10000
version_number (major ∷ patch ∷ []) = number 0 major * 10000 + number 0 patch
version_number (major ∷ minor ∷ patch ∷ _) =
    number 0 major * 10000 + number 0 minor * 100 + number 0 patch

unfoldable pub server_version_num : Text → Text
unfolding version_number
server_version_num version =
    itoa (version_number (split_dots 2 [] (trim_space (plain_spaces version))))
