-- ===== src/Prelude/Sorting.antt =====
-- Go's order of strings, by their bytes, and its package `sort`. Where two items are equal in the order,
-- which leaves theirs open, they stay as they were.
use mathlib.Core.Path.{◌≡◌, refl, ◌∙◌}
use mathlib.Core.Bool.{Bool, true, false, ◌||◌, ◌&&◌, not}
use mathlib.Core.List.{List, [], ◌∷◌}
use native.Mathlib.Omega.{arith}
use dsql_emulator.Prelude.Tests.{ltb, ◌==◌, if◌then◌else◌}
use dsql_emulator.Prelude.Bytes.{Text, text_eq}
use dsql_emulator.Prelude.Strings.{contains}

unfoldable pub text_less : Text → Text → Bool
text_less [] [] = false
text_less [] (b ∷ t) = true
text_less (a ∷ s) [] = false
text_less (a ∷ s) (b ∷ t) = ltb a b || (a == b && text_less s t)

module _ {ℓ} {A : Type ℓ} (less : A → A → Bool) where
  unfoldable pub insert_by : A → List A → List A
  insert_by x [] = x ∷ []
  insert_by x (y ∷ ys) = let rest = insert_by x ys in if less y x then y ∷ rest else x ∷ y ∷ ys

  unfoldable pub sort_by : List A → List A
  unfolding insert_by
  sort_by [] = []
  sort_by (x ∷ xs) = insert_by x (sort_by xs)

-- Nothing that follows is less.
unfoldable pub none_less : Text → List Text → Bool
none_less x [] = true
none_less x (y ∷ ys) = not (text_less y x) && none_less x ys

unfoldable pub is_ascending : List Text → Bool
unfolding none_less
is_ascending [] = true
is_ascending (x ∷ xs) = none_less x xs && is_ascending xs

text_less_trans :
    (s t u : Text) → text_less t s ≡ false → text_less u t ≡ false → text_less u s ≡ false
unfolding text_less
text_less_trans [] t [] h k = refl
text_less_trans [] [] (c ∷ u) h k = refl
text_less_trans [] (b ∷ t) (c ∷ u) h k = refl
text_less_trans (a ∷ s) [] u h k = ground arith
text_less_trans (a ∷ s) (b ∷ t) [] h k = ground arith
text_less_trans (a ∷ s) (b ∷ t) (c ∷ u) h k = ground (arith, text_less_trans s t u)

contains-insert_by :
    (x : Text) (ys : List Text) (n : Text)
    → contains (insert_by text_less x ys) n ≡ text_eq x n || contains ys n
unfolding contains insert_by
contains-insert_by x [] n = refl
contains-insert_by x (y ∷ ys) n = ground (arith, contains-insert_by x ys n)

pub contains-sort_by :
    (xs : List Text) (n : Text) → contains (sort_by text_less xs) n ≡ contains xs n
unfolding contains sort_by
contains-sort_by [] n = refl
contains-sort_by (x ∷ xs) n =
    contains-insert_by x (sort_by text_less xs) n ∙ ground (arith, contains-sort_by xs n)

text_less_asym : (s t : Text) → text_less s t ≡ true → text_less t s ≡ false
unfolding text_less
text_less_asym [] [] h = ground arith
text_less_asym [] (b ∷ t) h = refl
text_less_asym (a ∷ s) [] h = ground arith
text_less_asym (a ∷ s) (b ∷ t) h = ground (arith, text_less_asym s t)

none_less-insert_by :
    (z x : Text) (ys : List Text)
    → none_less z (insert_by text_less x ys) ≡ not (text_less x z) && none_less z ys
unfolding none_less insert_by
none_less-insert_by z x [] = refl
none_less-insert_by z x (y ∷ ys) = ground (arith, none_less-insert_by z x ys)

none_less_trans :
    (x y : Text) (ys : List Text)
    → text_less y x ≡ false
    → none_less y ys ≡ true
    → none_less x ys ≡ true
unfolding none_less
none_less_trans x y [] h k = refl
none_less_trans x y (z ∷ zs) h k = ground (arith, text_less_trans x y z h, none_less_trans x y zs h)

is_ascending-insert_by :
    (x : Text) (ys : List Text)
    → is_ascending ys ≡ true
    → is_ascending (insert_by text_less x ys) ≡ true
unfolding is_ascending none_less insert_by
is_ascending-insert_by x [] h = refl
is_ascending-insert_by x (y ∷ ys) h = ground (
  arith,
  none_less-insert_by y x ys,
  is_ascending-insert_by x ys,
  none_less_trans x y ys,
  text_less_asym y x,
)

pub is_ascending-sort_by : (xs : List Text) → is_ascending (sort_by text_less xs) ≡ true
unfolding is_ascending sort_by
is_ascending-sort_by [] = refl
is_ascending-sort_by (x ∷ xs) =
    is_ascending-insert_by x (sort_by text_less xs) (is_ascending-sort_by xs)
