-- ===== src/Prelude/Strings.antt =====
-- Go's package `strings` over the bytes of UTF-8, as far as the source calls it.
use Prim.Native.Nat.{ℕ, zero, suc, ◌+◌, ◌-◌}
use mathlib.Core.Path.{◌≡◌, refl, sym, ap, ◌∙◌}
use native.Mathlib.Omega.{arith}
use mathlib.Core.Bool.{Bool, true, false, ◌&&◌, ◌||◌}
use mathlib.Core.List.{List, [], ◌∷◌, ◌++◌, map, reverse}
use dsql_emulator.Prelude.Tests.{leb, ◌==◌, if◌then◌else◌}
use dsql_emulator.Prelude.Lists.{is_nil, take, drop}
use dsql_emulator.Prelude.Bytes.{Text, lit, text_eq, text_eq_sound}

-- `s[a:b]`, where Go does not panic.
abbrev pub slice : Text → ℕ → ℕ → Text
slice s a b = take (b - a) (drop a s)

unfoldable pub contains : List Text → Text → Bool
contains [] got = false
contains (w ∷ want) got = text_eq w got || contains want got

abbrev pub lower : ℕ → ℕ
lower c = if leb b'A' c && leb c b'Z' then c + 32 else c

abbrev pub upper : ℕ → ℕ
upper c = if leb b'a' c && leb c b'z' then c - 32 else c

unfoldable pub to_lower : Text → Text
to_lower = map lower

unfoldable pub to_upper : Text → Text
to_upper = map upper

-- The case folding of a text that is compared with ASCII: beside A to Z, the long s (U+017F) and the
-- Kelvin sign (U+212A) fold to ASCII letters.
fold : Text → Text
fold [] = []
fold (a ∷ []) = lower a ∷ []
fold (a ∷ b ∷ []) = if a == 0xC5 && b == 0xBF then b's' ∷ [] else lower a ∷ lower b ∷ []
fold (a ∷ b ∷ c ∷ s) = elim (a == 0xC5 && b == 0xBF) [
  | true ↦ b's' ∷ fold (c ∷ s)
  | false ↦ elim (a == 0xE2 && b == 0x84 && c == 0xAA) [
    | true ↦ b'k' ∷ fold s
    | false ↦ lower a ∷ fold (b ∷ c ∷ s)
  ]
]

-- `strings.EqualFold`, where one of the texts is ASCII.
unfoldable pub equal_fold : Text → Text → Bool
unfolding fold
equal_fold s t = text_eq (fold s) (fold t)

pub equal_fold_alike : (s a b : Text) → equal_fold a b ≡ true → equal_fold s a ≡ equal_fold s b
unfolding equal_fold
equal_fold_alike s a b h = ap (text_eq (fold s)) (text_eq_sound (fold a) (fold b) h)

is_nil-fold : (s : Text) → is_nil (fold s) ≡ is_nil s
unfolding fold
is_nil-fold [] = refl
is_nil-fold (a ∷ []) = refl
is_nil-fold (a ∷ b ∷ []) = ground arith
is_nil-fold (a ∷ b ∷ c ∷ s) = ground arith

pub is_nil-equal_fold : (a b : Text) → equal_fold a b ≡ true → is_nil a ≡ is_nil b
unfolding equal_fold
is_nil-equal_fold a b h =
    sym (is_nil-fold a) ∙ (ap is_nil (text_eq_sound (fold a) (fold b) h) ∙ is_nil-fold b)

abbrev is_space : ℕ → Bool
is_space c = (leb 9 c && leb c 13) || c == 32

wide_space₂ : ℕ → ℕ → Bool
wide_space₂ a b = a == 0xC2 && (b == 0x85 || b == 0xA0)

wide_space₃ : ℕ → ℕ → ℕ → Bool
wide_space₃ a b c =
    (a == 0xE1 && b == 0x9A && c == 0x80)
    || (a == 0xE2
        && b == 0x80
        && ((leb 0x80 c && leb c 0x8A) || c == 0xA8 || c == 0xA9 || c == 0xAF))
    || (a == 0xE2 && b == 0x81 && c == 0x9F)
    || (a == 0xE3 && b == 0x80 && c == 0x80)

-- Every space of Unicode as the space of ASCII.
unfoldable pub plain_spaces : Text → Text
unfolding wide_space₂ wide_space₃
plain_spaces [] = []
plain_spaces (a ∷ []) = a ∷ []
plain_spaces (a ∷ b ∷ []) = if wide_space₂ a b then 32 ∷ [] else a ∷ b ∷ []
plain_spaces (a ∷ b ∷ c ∷ s) = elim (wide_space₂ a b) [
  | true ↦ 32 ∷ plain_spaces (c ∷ s)
  | false ↦ elim (wide_space₃ a b c) [
    | true ↦ 32 ∷ plain_spaces s
    | false ↦ a ∷ plain_spaces (b ∷ c ∷ s)
  ]
]

trim_left : Text → Text
trim_left [] = []
trim_left (c ∷ s) = elim (is_space c) [ true ↦ trim_left s | false ↦ c ∷ s ]

-- `strings.TrimSpace`, of a text whose spaces are plain.
unfoldable pub trim_space : Text → Text
unfolding trim_left
trim_space s = reverse (trim_left (reverse (trim_left s)))

drop_semicolon : Text → Text
drop_semicolon [] = []
drop_semicolon (c ∷ s) = if c == b';' then s else c ∷ s

-- `strings.TrimSuffix(s, ";")`.
unfoldable pub trim_semicolon : Text → Text
unfolding drop_semicolon
trim_semicolon s = reverse (drop_semicolon (reverse s))

abbrev put_word : Text → List Text → List Text
put_word word rest = if is_nil word then rest else word ∷ rest

words : Text → Text → List Text
words word [] = put_word word []
words word (c ∷ s) = elim (is_space c) [
  | true ↦ put_word word (words [] s)
  | false ↦ words (word ++ c ∷ []) s
]

-- `strings.Fields`, of a text whose spaces are plain.
unfoldable pub fields : Text → List Text
unfolding words
fields s = words [] s

-- `strings.Join(words, " ")`.
unfoldable pub join_spaced : List Text → Text
join_spaced [] = []
join_spaced (w ∷ []) = w
join_spaced (w ∷ v ∷ ws) = w ++ (32 ∷ join_spaced (v ∷ ws))

-- `strings.SplitN(s, ".", n + 1)`: at most `n` cuts.
unfoldable pub split_dots : ℕ → Text → Text → List Text
split_dots n part [] = part ∷ []
split_dots zero part (c ∷ s) = (part ++ (c ∷ s)) ∷ []
split_dots (suc n) part (c ∷ s) = elim (c == b'.') [
  | true ↦ part ∷ split_dots n [] s
  | false ↦ split_dots (suc n) (part ++ c ∷ []) s
]

folded : equal_fold (lit "aSync") (lit "ASYNC") ≡ true
unfolding equal_fold lit text_eq
folded = refl

key_of :
    join_spaced (fields (trim_semicolon (trim_space (lit "  select  version() ;"))))
    ≡ lit "select version()"
unfolding join_spaced fields trim_semicolon trim_space lit
key_of = refl

three_parts : split_dots 2 [] (lit "16.3.2.1") ≡ lit "16" ∷ lit "3" ∷ lit "2.1" ∷ []
unfolding split_dots lit
three_parts = refl
