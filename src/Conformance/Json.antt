-- ===== src/Conformance/Json.antt =====
-- What `json.Marshal` writes of a list of texts and of a list of rows: `join` and `rows` of
-- internal/conformance/compare.go. Marshal does not fail on them.
use dsql_emulator.Prelude.{
  ℕ, zero, suc, ◌+◌, ◌-◌, ◌/◌, ◌%◌, Bool, true, false, ◌&&◌, ◌||◌, List, [], ◌∷◌, ◌++◌, ltb, leb,
  ◌==◌, if◌then◌else◌, Text, lit, ◌≡◌, refl,
}

abbrev between : ℕ → ℕ → ℕ → Bool
between lo hi c = leb lo c && leb c hi

-- How many bytes follow the first of a rune of UTF-8.
abbrev width : ℕ → ℕ
width a =
    if between 0xC2 0xDF a
    then 1
    else if between 0xE0 0xEF a
    then 2
    else if between 0xF0 0xF4 a
    then 3
    else 0

abbrev is_second : ℕ → ℕ → Bool
is_second a b =
    if a == 0xE0
    then between 0xA0 0xBF b
    else if a == 0xED
    then between 0x80 0x9F b
    else if a == 0xF0
    then between 0x90 0xBF b
    else if a == 0xF4
    then between 0x80 0x8F b
    else between 0x80 0xBF b

continues : ℕ → Text → Bool
continues zero s = true
continues (suc n) [] = false
continues (suc n) (c ∷ s) = between 0x80 0xBF c && continues n s

abbrev starts : ℕ → Text → Bool
starts a [] = false
starts a (b ∷ s) = is_second a b

-- The same, where they do follow, and 0 in text that is not UTF-8.
abbrev trailing : ℕ → Text → ℕ
trailing a s = if starts a s && continues (width a) s then width a else 0

-- U+2028 and U+2029, after their first byte.
abbrev separator : Text → Text
separator (b ∷ c ∷ s) =
    if b == 0x80 && c == 0xA8
    then lit "\\u2028"
    else if b == 0x80 && c == 0xA9
    then lit "\\u2029"
    else []
separator _ = []

abbrev hex_digit : ℕ → ℕ
hex_digit n = if ltb n 10 then b'0' + n else b'a' + (n - 10)

abbrev unicode : ℕ → Text
unicode c = lit "\\u00" ++ hex_digit (c / 16) ∷ hex_digit (c % 16) ∷ []

-- A byte of ASCII in a string.
abbrev ascii : ℕ → Text
ascii c =
    if c == b'"' || c == 0x5C
    then 0x5C ∷ c ∷ []
    else if c == 8
    then lit "\\b"
    else if c == 12
    then lit "\\f"
    else if c == 10
    then lit "\\n"
    else if c == 13
    then lit "\\r"
    else if c == 9
    then lit "\\t"
    else if ltb c 0x20 || c == b'<' || c == b'>' || c == b'&'
    then unicode c
    else c ∷ []

-- `kept` and `left_out` are the bytes to come of a rune that is copied, or that is written already.
escaped : (kept left_out : ℕ) → Text → Text
unfolding continues
escaped kept left_out [] = []
escaped kept (suc n) (c ∷ s) = escaped kept n s
escaped (suc n) zero (c ∷ s) = c ∷ escaped n zero s
escaped zero zero (c ∷ s) = elim (ltb c 0x80) [
  | true ↦ ascii c ++ escaped 0 0 s
  | false ↦ elim (trailing c s) [
    | zero ↦ lit "\\ufffd" ++ escaped 0 0 s
    | suc n ↦ elim (if c == 0xE2 then separator s else []) [
      | [] ↦ c ∷ escaped (suc n) 0 s
      | w ∷ written ↦ w ∷ written ++ escaped 0 (suc n) s
    ]
  ]
]

abbrev quoted : Text → Text
unfolding escaped
quoted s = b'"' ∷ escaped 0 0 s ++ b'"' ∷ []

after : List Text → Text
unfolding escaped
after [] = lit "]"
after (s ∷ ss) = b',' ∷ quoted s ++ after ss

-- A slice that is not nil.
unfoldable pub array : List Text → Text
unfolding escaped after
array [] = lit "[]"
array (s ∷ ss) = b'[' ∷ quoted s ++ after ss

-- The columns of an answer are nil where there are none.
unfoldable pub join : List Text → Text
unfolding array
join [] = lit "null"
join (s ∷ ss) = array (s ∷ ss)

after_row : List (List Text) → Text
unfolding array
after_row [] = lit "]"
after_row (r ∷ rs) = b',' ∷ array r ++ after_row rs

-- The rows of an answer are nil where there are none; a row never is.
unfoldable pub rows : List (List Text) → Text
unfolding array after_row
rows [] = lit "null"
rows (r ∷ rs) = b'[' ∷ array r ++ after_row rs

rows_test :
    rows (((lit "a\"<" ++ 0xE2 ∷ 0x80 ∷ 0xA8 ∷ 0xFF ∷ []) ∷ []) ∷ [] ∷ [])
    ≡ lit "[[\"a\\\"\\u003c\\u2028\\ufffd\"],[]]"
unfolding rows lit array after_row escaped after continues
rows_test = refl
