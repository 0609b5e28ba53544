-- ===== src/Occ/Positions.antt =====
-- What the renumbered parameters of a shadow statement stand for.
use dsql_emulator.Prelude.{
  ℕ, zero, suc, ◌+◌, ◌<◌, ◌≡◌, refl, ◌∙◌, subst, Bool, true, false, not, ◌&&◌, ◌||◌, List, [], ◌∷◌,
  ◌++◌, map, Option, none, some, ltb, ◌==◌, ℤ, pos, negsuc, is_positive, get_elem?, arith,
  Option-cases, is_some, inl, inr, Bool-cases,
}
use dsql_emulator.Occ.Renumber.{
  has, collect, insert, sort, place, place_of, numbered, renumber_params,
}

has-append : (xs : List ℕ) (n m : ℕ) → has (xs ++ n ∷ []) m ≡ has xs m || n == m
unfolding has
has-append [] n m = ground arith
has-append (x ∷ xs) n m = ground (arith, has-append xs n m)

has-insert : (x : ℕ) (xs : List ℕ) (m : ℕ) → has (insert x xs) m ≡ x == m || has xs m
unfolding has insert
has-insert x [] m = refl
has-insert x (y ∷ ys) m = ground (arith, has-insert x ys m)

has-sort : (xs : List ℕ) (m : ℕ) → has (sort xs) m ≡ has xs m
unfolding has sort
has-sort [] m = refl
has-sort (x ∷ xs) m = ground (arith, has-insert x (sort xs) m, has-sort xs m)

unfoldable pub ascending : ℕ → List ℕ → Bool
ascending low [] = true
ascending low (x ∷ xs) = ltb low x && ascending x xs

unfoldable pub distinct : List ℕ → Bool
distinct [] = true
distinct (x ∷ xs) = not (has xs x) && distinct xs

distinct-append :
    (xs : List ℕ) (n : ℕ) → distinct xs ≡ true → has xs n ≡ false → distinct (xs ++ n ∷ []) ≡ true
unfolding distinct has
distinct-append [] n d h = refl
distinct-append (x ∷ xs) n d h = ground (arith, distinct-append xs n, has-append xs n x)

ascending-insert :
    (low x : ℕ) (xs : List ℕ)
    → ascending low xs ≡ true
    → low < x
    → has xs x ≡ false
    → ascending low (insert x xs) ≡ true
unfolding ascending insert has
ascending-insert low x [] a l h = ground arith
ascending-insert low x (y ∷ ys) a l h = ground (arith, ascending-insert y x ys)

-- Every item is at least 1.
unfoldable pub all_positive : List ℕ → Bool
all_positive [] = true
all_positive (x ∷ xs) = ltb 0 x && all_positive xs

all_positive-append :
    (xs : List ℕ) (n : ℕ) → all_positive xs ≡ true → 0 < n → all_positive (xs ++ n ∷ []) ≡ true
unfolding all_positive
all_positive-append [] n p h = ground arith
all_positive-append (x ∷ xs) n p h = ground (arith, all_positive-append xs n)

ascending-sort :
    (xs : List ℕ) → distinct xs ≡ true → all_positive xs ≡ true → ascending 0 (sort xs) ≡ true
unfolding ascending sort distinct all_positive
ascending-sort [] d p = refl
ascending-sort (x ∷ xs) d p =
    ground (arith, ascending-sort xs, ascending-insert 0 x (sort xs), has-sort xs x)

-- An item has its place.
place-found :
    (i : ℕ) (xs : List ℕ) (n : ℕ)
    → has xs n ≡ true
    → (k : ℕ) × (place i xs n ≡ i + suc k) × (get_elem? xs k ≡ some n)
unfolding place has
place-found i [] n h = ground arith
place-found i (x ∷ xs) n h = elim (Bool-cases (x == n)) [
  | inl e ↦ (0, ground (arith, e), ground (arith, e))
  | inr e ↦
      let (k, p, q) = place-found (i + 1) xs n (ground (arith, e, h)) in
      (suc k, ground (arith, e, p), q)
]

-- The item at a place that is counted from 1.
abbrev pub nth {ℓ} : {A : Type ℓ} → List A → ℕ → Option A
nth xs zero = none
nth xs (suc k) = get_elem? xs k

get_elem?-map :
    (xs : List ℕ) (k : ℕ) {n : ℕ}
    → get_elem? xs k ≡ some n
    → get_elem? (map pos xs) k ≡ some (pos n)
get_elem?-map [] k h = ground arith
get_elem?-map (x ∷ xs) zero h = ground arith
get_elem?-map (x ∷ xs) (suc k) h = get_elem?-map xs k h

nth-place : (xs : List ℕ) (n : ℕ) → has xs n ≡ true → nth (map pos xs) (place 0 xs n) ≡ some (pos n)
nth-place xs n h =
    let (k, p, q) = place-found 0 xs n h in
    let e : place 0 xs n ≡ suc k = omega (arith, p) in rw e (get_elem?-map xs k q)

-- All of the numbers that are referred to are in the list.
unfoldable pub covered : List ℕ → List ℤ → Bool
covered xs [] = true
covered xs (negsuc k ∷ refs) = false
covered xs (pos n ∷ refs) = has xs n && covered xs refs

covered-sort : (xs : List ℕ) (refs : List ℤ) → covered (sort xs) refs ≡ covered xs refs
unfolding covered
covered-sort xs [] = refl
covered-sort xs (negsuc k ∷ refs) = refl
covered-sort xs (pos n ∷ refs) = ground (arith, has-sort xs n, covered-sort xs refs)

collect_keeps :
    (order : List ℕ) (refs : List ℤ) {out : List ℕ} (m : ℕ)
    → collect order refs ≡ some out
    → has order m ≡ true
    → has out m ≡ true
unfolding collect
collect_keeps order [] m e h = ground arith
collect_keeps order (negsuc k ∷ refs) m e h = ground arith
collect_keeps order (pos n ∷ refs) {out = out} m e h = ground (
  arith,
  has-append order n m,
  collect_keeps order refs {out = out} m,
  collect_keeps (order ++ n ∷ []) refs {out = out} m,
)

collect-covered :
    (order : List ℕ) (refs : List ℤ) {out : List ℕ}
    → collect order refs ≡ some out
    → covered out refs ≡ true
unfolding collect covered
collect-covered order [] e = refl
collect-covered order (negsuc k ∷ refs) e = ground arith
collect-covered order (pos n ∷ refs) {out = out} e = ground (
  arith,
  has-append order n n,
  collect_keeps order refs {out = out} n,
  collect_keeps (order ++ n ∷ []) refs {out = out} n,
  collect-covered order refs {out = out},
  collect-covered (order ++ n ∷ []) refs {out = out},
)

collect-distinct :
    (order : List ℕ) (refs : List ℤ) {out : List ℕ}
    → collect order refs ≡ some out
    → distinct order ≡ true
    → all_positive order ≡ true
    → (distinct out ≡ true) × (all_positive out ≡ true)
unfolding collect
collect-distinct order [] e d p = ground arith
collect-distinct order (negsuc k ∷ refs) e d p = ground arith
collect-distinct order (pos n ∷ refs) {out = out} e d p = ground (
  arith,
  distinct-append order n,
  all_positive-append order n,
  collect-distinct order refs {out = out},
  collect-distinct (order ++ n ∷ []) refs {out = out},
)

map-nth :
    (xs : List ℕ) (refs : List ℤ)
    → covered xs refs ≡ true
    → map (nth (map pos xs)) (map (place_of xs) refs) ≡ map some refs
unfolding covered
map-nth xs [] h = refl
map-nth xs (negsuc k ∷ refs) h = ground arith
map-nth xs (pos n ∷ refs) h = ground (arith, nth-place xs n, map-nth xs refs, h)

-- Each number of a reference is at least 1.
unfoldable pub all_from_one : List ℤ → Bool
all_from_one [] = true
all_from_one (r ∷ refs) = is_positive r && all_from_one refs

is_some-collect :
    (order : List ℕ) (refs : List ℤ) → is_some (collect order refs) ≡ all_from_one refs
unfolding collect all_from_one
is_some-collect order [] = refl
is_some-collect order (negsuc k ∷ refs) = refl
is_some-collect order (pos n ∷ refs) =
    ground (arith, is_some-collect order refs, is_some-collect (order ++ n ∷ []) refs)

-- The parameters of a shadow can be renumbered exactly when each of them has a number from 1.
pub is_some-renumber_params : (refs : List ℤ) → is_some (renumber_params refs) ≡ all_from_one refs
unfolding renumber_params all_from_one
is_some-renumber_params [] = refl
is_some-renumber_params (r ∷ refs) =
    ground (arith, Option-cases (collect [] (r ∷ refs)), is_some-collect [] (r ∷ refs))

-- What a renumbering is: the new number of each reference is the place, counted from 1, at which the list
-- of positions has the reference's old number, and the list is strictly ascending, from 1 at least.
pub record Renumbers (refs : List ℤ) (v : List ℤ × List ℕ) : Type 0 where
  pub points : map (nth v.0) v.1 ≡ map some refs
  pub sorted : List ℕ
  pub same_positions : v.0 ≡ map pos sorted
  pub is_ascending : ascending 0 sorted ≡ true

sorted-Renumbers :
    (refs : List ℤ) (order : List ℕ)
    → collect [] refs ≡ some order
    → Renumbers refs (map pos (sort order), map (place_of (sort order)) refs)
sorted-Renumbers refs order e =
    let (d, p) =
      collect-distinct [] refs e (unfold distinct in refl) (unfold all_positive in refl) in
    record {
      points = map-nth (sort order) refs (covered-sort order refs ∙ collect-covered [] refs e);
      sorted = sort order;
      same_positions = refl;
      is_ascending = ascending-sort order d p;
    }

numbered-Renumbers :
    (refs : List ℤ) (v : List ℤ × List ℕ)
    → numbered refs (collect [] refs) ≡ some v
    → Renumbers refs v
numbered-Renumbers refs v e = elim (Option-cases (collect [] refs)) [
  | inl p ↦ ground (arith, p, e)
  | inr (order, p) ↦
      let q : (map pos (sort order), map (place_of (sort order)) refs) ≡ v = ground (arith, p, e) in
      subst (Renumbers refs) q (sorted-Renumbers refs order p)
]

-- When a shadow's parameters are renumbered, the new number of each reference is the place, counted from 1,
-- at which the list of the client's positions has the reference's old number; and that list is strictly
-- ascending, from 1 at least, so that it has no position twice.
pub renumber_params-Renumbers :
    (refs : List ℤ) (v : List ℤ × List ℕ) → renumber_params refs ≡ some v → Renumbers refs v
unfolding renumber_params
renumber_params-Renumbers [] v e =
    let q : ([], []) ≡ v = ground (arith, e) in
    subst (Renumbers []) q (record {
      points = refl;
      sorted = [];
      same_positions = refl;
      is_ascending = unfold ascending in refl;
    })
renumber_params-Renumbers (r ∷ refs) v e = numbered-Renumbers (r ∷ refs) v e
