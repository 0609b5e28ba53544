-- ===== src/Rewrite/Witnesses.antt =====
-- The theorems on internal/proxy/rewrite.go at sixteen bytes and at a short text.
use dsql_emulator.Prelude.{[], ◌∷◌, some, refl, Text, ℕ, ◌≡◌, List, lit, pos, text_eq, equal_fold}
use dsql_emulator.Rewrite.{
  Token, TokenKind, create, index, ident, statements, strip_async, first_async, async_keyword,
  by_opening, create_keyword, is_async, token_at, cuts, splice,
}
use dsql_emulator.Rewrite.Scanned.{scanned}
use dsql_emulator.Rewrite.Cuts.{IsStripped, strip_async-Stripped}
use dsql_emulator.Rewrite.Ordinal.{IsOrdinal, strip_async-IsFirst}
use dsql_emulator.Rewrite.JobId.{new_job_id}
use dsql_emulator.Rewrite.JobShape.{IsJobId, new_job_id-IsJobId}

abbrev bytes : Text
bytes = 0 ∷ 255 ∷ 17 ∷ 3 ∷ 128 ∷ 64 ∷ 9 ∷ 77 ∷ 200 ∷ 31 ∷ 32 ∷ 1 ∷ 2 ∷ 250 ∷ 99 ∷ 100 ∷ []

new_job_id-IsJobId_example : IsJobId (new_job_id (some bytes))
new_job_id-IsJobId_example = new_job_id-IsJobId (some bytes) refl

abbrev sql : Text
sql = lit "CREATE INDEX async i"

abbrev token_of : TokenKind → ℕ → ℕ → Token
token_of k a b = record { kind = k; start = pos a; stop = pos b }

abbrev tokens : List Token
tokens =
    token_of create 0 6 ∷ token_of index 7 12 ∷ token_of ident 13 18 ∷ token_of ident 19 20 ∷ []

abbrev stripped : Text × ℕ
stripped = (lit "CREATE INDEX i", 0)

strips : strip_async (λ s. some tokens) sql ≡ some stripped
unfolding strip_async first_async statements async_keyword by_opening create_keyword is_async
    token_at cuts splice equal_fold lit text_eq
strips = refl

strip_async-Stripped_example : IsStripped sql tokens (lit "CREATE INDEX i")
unfolding scanned lit
strip_async-Stripped_example =
    strip_async-Stripped (λ s. some tokens) sql tokens stripped refl refl strips

strip_async-IsFirst_example : IsOrdinal sql tokens 0
strip_async-IsFirst_example = strip_async-IsFirst (λ s. some tokens) sql tokens stripped refl strips
