-- ===== src/Rewrite/JobId.antt =====
-- `newJobID` of internal/proxy/rewrite.go, from the sixteen random bytes, and the shape of its result.
use dsql_emulator.Prelude.{
  ℕ, ◌+◌, ◌*◌, ◌-◌, ◌/◌, ◌%◌, Bool, true, ◌&&◌, ◌||◌, List, [], ◌∷◌, ◌++◌, Option, none, some, ltb,
  leb, if◌then◌else◌, Text, replicate, to_lower,
}

-- The eight bits of a byte, the highest first.
unfoldable pub bits : ℕ → List ℕ
bits b =
    b / 128 % 2
    ∷ b / 64 % 2
    ∷ b / 32 % 2
    ∷ b / 16 % 2
    ∷ b / 8 % 2
    ∷ b / 4 % 2
    ∷ b / 2 % 2
    ∷ b % 2
    ∷ []

unfoldable pub all_bits : Text → List ℕ
all_bits [] = []
all_bits (b ∷ bs) = bits b ++ all_bits bs

-- The alphabet of RFC 4648.
abbrev pub letter : ℕ → ℕ
letter v = if ltb v 26 then b'A' + v else b'2' + (v - 26)

abbrev pub quintet : ℕ → ℕ → ℕ → ℕ → ℕ → ℕ
quintet a b c d e = letter (16 * (a % 2) + 8 * (b % 2) + 4 * (c % 2) + 2 * (d % 2) + e % 2)

-- Five bits make a character; the last ones are filled up with zeros.
unfoldable pub letters : List ℕ → Text
letters [] = []
letters (a ∷ []) = quintet a 0 0 0 0 ∷ []
letters (a ∷ b ∷ []) = quintet a b 0 0 0 ∷ []
letters (a ∷ b ∷ c ∷ []) = quintet a b c 0 0 ∷ []
letters (a ∷ b ∷ c ∷ d ∷ []) = quintet a b c d 0 ∷ []
letters (a ∷ b ∷ c ∷ d ∷ e ∷ rest) = quintet a b c d e ∷ letters rest

-- `base32.StdEncoding.WithPadding(base32.NoPadding).EncodeToString`.
unfoldable pub encode : Text → Text
unfolding all_bits bits letters
encode bytes = letters (all_bits bytes)

-- `none` is a failure of the random source.
unfoldable pub new_job_id : Option Text → Text
unfolding encode
new_job_id none = replicate 26 b'a'
new_job_id (some bytes) = to_lower (encode bytes)

-- `[a-z2-7]`.
abbrev pub in_alphabet : ℕ → Bool
in_alphabet c = (leb b'a' c && leb c b'z') || (leb b'2' c && leb c b'7')

unfoldable pub all_in_alphabet : Text → Bool
all_in_alphabet [] = true
all_in_alphabet (c ∷ s) = in_alphabet c && all_in_alphabet s
