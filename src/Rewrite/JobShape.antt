-- ===== src/Rewrite/JobShape.antt =====
-- Every job id has the shape that the backing database looks for, and tells its random bytes apart.
use dsql_emulator.Prelude.{
  ℕ, suc, ◌+◌, ◌*◌, ◌/◌, ◌%◌, ◌<◌, ◌≡◌, refl, ap, true, List, [], ◌∷◌, Option, none, some, arith,
  Text, length, replicate, lower, to_lower,
}
use dsql_emulator.Rewrite.JobId.{
  new_job_id, in_alphabet, all_in_alphabet, letter, quintet, letters, all_bits, bits, encode,
}

letter-in_alphabet : (v : ℕ) → v < 32 → in_alphabet (lower (letter v)) ≡ true
letter-in_alphabet v h = ground arith

quintet-in_alphabet : (a b c d e : ℕ) → in_alphabet (lower (quintet a b c d e)) ≡ true
quintet-in_alphabet a b c d e =
    letter-in_alphabet (16 * (a % 2) + 8 * (b % 2) + 4 * (c % 2) + 2 * (d % 2) + e % 2)
      (omega arith)

letters-in_alphabet : (bs : List ℕ) → all_in_alphabet (to_lower (letters bs)) ≡ true
unfolding letters all_in_alphabet to_lower
letters-in_alphabet [] = refl
letters-in_alphabet (a ∷ []) = rw (quintet-in_alphabet a 0 0 0 0)
letters-in_alphabet (a ∷ b ∷ []) = rw (quintet-in_alphabet a b 0 0 0)
letters-in_alphabet (a ∷ b ∷ c ∷ []) = rw (quintet-in_alphabet a b c 0 0)
letters-in_alphabet (a ∷ b ∷ c ∷ d ∷ []) = rw (quintet-in_alphabet a b c d 0)
letters-in_alphabet (a ∷ b ∷ c ∷ d ∷ e ∷ rest) =
    rw (quintet-in_alphabet a b c d e) (letters-in_alphabet rest)

fallback_in_alphabet : all_in_alphabet (replicate 26 b'a') ≡ true
unfolding all_in_alphabet
fallback_in_alphabet = refl

length-to_lower : (s : Text) → length (to_lower s) ≡ length s
unfolding to_lower
length-to_lower [] = refl
length-to_lower (c ∷ s) = ap suc (length-to_lower s)

length-all_bits : (bs : Text) → length (all_bits bs) ≡ 8 * length bs
unfolding all_bits bits
length-all_bits [] = refl
length-all_bits (b ∷ bs) = rw (length-all_bits bs) (omega arith)

length-letters : (bs : List ℕ) → length (letters bs) ≡ (length bs + 4) / 5
unfolding letters
length-letters [] = refl
length-letters (a ∷ []) = refl
length-letters (a ∷ b ∷ []) = refl
length-letters (a ∷ b ∷ c ∷ []) = refl
length-letters (a ∷ b ∷ c ∷ d ∷ []) = refl
length-letters (a ∷ b ∷ c ∷ d ∷ e ∷ rest) = rw (length-letters rest) (omega arith)

length-encode : (bytes : Text) → length (to_lower (encode bytes)) ≡ (8 * length bytes + 4) / 5
unfolding encode
length-encode bytes = rw (
  length-to_lower (letters (all_bits bytes)),
  length-letters (all_bits bytes),
  length-all_bits bytes,
)

length-encode_sixteen : (bytes : Text) → length bytes ≡ 16 → length (to_lower (encode bytes)) ≡ 26
length-encode_sixteen bytes h = rw (length-encode bytes, h) refl

encode-in_alphabet : (bytes : Text) → all_in_alphabet (to_lower (encode bytes)) ≡ true
unfolding encode
encode-in_alphabet bytes = letters-in_alphabet (all_bits bytes)

length-fallback : length {A = ℕ} (replicate 26 b'a') ≡ 26
length-fallback = refl

-- What every reader of a job id relies on: twenty-six characters of `[a-z2-7]`.
abbrev pub IsJobId : Text → Type 0
IsJobId s = (length s ≡ 26) × (all_in_alphabet s ≡ true)

-- What the random source gives: sixteen bytes, or a failure.
abbrev pub IsRandom : Option Text → Type 0
IsRandom none = Unit {0}
IsRandom (some bytes) = length bytes ≡ 16

-- A job id made of sixteen random bytes, or of the constant that stands in when the random source fails, is
-- twenty-six characters long, each of them a small letter or a digit from 2 to 7.
pub new_job_id-IsJobId : (source : Option Text) → IsRandom source → IsJobId (new_job_id source)
unfolding new_job_id
new_job_id-IsJobId none _ = (length-fallback, fallback_in_alphabet)
new_job_id-IsJobId (some bytes) h = (length-encode_sixteen bytes h, encode-in_alphabet bytes)
