-- ===== src/Occ/Renumber.antt =====
-- `renumberParams` of internal/occ/occ.go, from the numbers of the parameters that a statement refers to, in
-- the order in which its tree is walked: the client's positions, and the numbers written in their place.
use dsql_emulator.Prelude.{
  ℕ, ◌+◌, Bool, false, ◌||◌, List, [], ◌∷◌, ◌++◌, map, Option, none, some, ltb, ◌==◌, if◌then◌else◌,
  ℤ, pos, negsuc,
}

-- The set `seen` holds what the list `order` holds.
unfoldable pub has : List ℕ → ℕ → Bool
has [] n = false
has (x ∷ xs) n = x == n || has xs n

-- The loop over the references: the numbers without repetition, or `none` for one below 1.
unfoldable pub collect : List ℕ → List ℤ → Option (List ℕ)
collect order [] = some order
collect order (negsuc k ∷ refs) = none
collect order (pos n ∷ refs) =
    let known = collect order refs in
    let fresh = collect (order ++ n ∷ []) refs in
    if ltb n 1 then none else if has order n then known else fresh

-- `sort.Slice`, on numbers that all differ.
unfoldable pub insert : ℕ → List ℕ → List ℕ
insert x [] = x ∷ []
insert x (y ∷ ys) = let rest = insert x ys in if ltb x y then x ∷ y ∷ ys else y ∷ rest

unfoldable pub sort : List ℕ → List ℕ
sort [] = []
sort (x ∷ xs) = insert x (sort xs)

-- The map `renumbered`: from a number to its place, counted from 1, and 0 where it has none.
unfoldable pub place : ℕ → List ℕ → ℕ → ℕ
place i [] n = 0
place i (x ∷ xs) n = let rest = place (i + 1) xs n in if x == n then i + 1 else rest

abbrev pub place_of : List ℕ → ℤ → ℕ
place_of positions (pos n) = place 0 positions n
place_of positions (negsuc k) = 0

abbrev pub numbered : List ℤ → Option (List ℕ) → Option (List ℤ × List ℕ)
numbered refs none = none
numbered refs (some order) = some (map pos (sort order), map (place_of (sort order)) refs)

unfoldable pub renumber_params : List ℤ → Option (List ℤ × List ℕ)
renumber_params [] = some ([], [])
renumber_params (r ∷ refs) = numbered (r ∷ refs) (collect [] (r ∷ refs))
