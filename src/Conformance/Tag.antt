-- ===== src/Conformance/Tag.antt =====
-- `isRowCountTag` of internal/conformance/compare.go.
use dsql_emulator.Prelude.{
  ℕ, ◌+◌, ◌-◌, ◌*◌, ◌^◌, ◌≡◌, refl, Bool, true, false, ◌&&◌, [], ◌∷◌, leb, ◌==◌, is_nil, drop,
  if◌then◌else◌, Text, lit, starts_with,
}

unfoldable pub all_digits : Text → Bool
all_digits [] = true
all_digits (c ∷ s) = leb b'0' c && leb c b'9' && all_digits s

unfoldable pub value : ℕ → Text → ℕ
value n [] = n
value n (c ∷ s) = value (10 * n + (c - b'0')) s

-- Digits for a number of at most `most`.
abbrev up_to : ℕ → Text → Bool
unfolding all_digits value
up_to most s = if is_nil s then false else all_digits s && leb (value 0 s) most

-- Whether `strconv.Atoi` gives a number: a machine integer of 64 bits.
unfoldable pub is_number : Text → Bool
unfolding all_digits value
is_number [] = false
is_number (c ∷ s) =
    if c == b'-'
    then up_to (2 ^ 63) s
    else if c == b'+'
    then up_to (2 ^ 63 - 1) s
    else up_to (2 ^ 63 - 1) (c ∷ s)

unfoldable pub is_row_count_tag : Text → Bool
unfolding is_number
is_row_count_tag tag = if starts_with (lit "SELECT ") tag then is_number (drop 7 tag) else false

is_row_count_tag_test :
    (is_row_count_tag (lit "SELECT 12") ≡ true)
    × (is_row_count_tag (lit "SELECT ") ≡ false)
    × (is_row_count_tag (lit "INSERT 0 1") ≡ false)
unfolding is_row_count_tag is_number all_digits value lit starts_with
is_row_count_tag_test = (refl, refl, refl)
