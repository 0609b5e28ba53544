-- ===== src/Session/ShadowValues.antt =====
-- The values that a shadow statement is run with are those that the client bound.
use dsql_emulator.Prelude.{
  ℕ, zero, suc, ◌≡◌, refl, ◌∙◌, pos, negsuc, List, [], ◌∷◌, map, Option, some, none, arith, Text, ℤ,
  get_elem?, true, is_some, Option-cases, inl, inr,
}
use dsql_emulator.Occ.Renumber.{renumber_params}
use dsql_emulator.Occ.Positions.{nth, renumber_params-Renumbers}
use dsql_emulator.Session.Shadow.{pick_params, param_at, bind_format, position}

cons : {A : Type 0} {x y : A} {xs ys : List A} → x ≡ y → xs ≡ ys → x ∷ xs ≡ y ∷ ys
cons p q = cc

picked :
    (ps : List ℤ) (params : List (Option Text)) (codes : List ℕ) (w : List (Option Text) × List ℕ)
    (k : ℕ) (p : ℤ)
    → pick_params ps params codes ≡ some w
    → get_elem? ps k ≡ some p
    → (get_elem? w.0 k ≡ param_at params p)
      × (get_elem? w.1 k ≡ some (bind_format codes (position p)))
      × (is_some (param_at params p) ≡ true)
unfolding pick_params
picked [] params codes w k p e h = ground arith
picked (q ∷ ps) params codes w zero p e h =
    ground
      (arith, Option-cases (pick_params ps params codes), Option-cases (param_at params q), e, h)
picked (q ∷ ps) params codes w (suc k) p e h = elim (Option-cases (pick_params ps params codes)) [
  | inl n ↦ ground (arith, Option-cases (param_at params q), e, n)
  | inr (v, n) ↦
      ground (arith, Option-cases (param_at params q), e, n, picked ps params codes v k p n h)
]

-- The value that the client bound for a parameter, where it bound one.
abbrev pub bound_at : List (Option Text) → ℤ → Option (Option Text)
bound_at params (pos n) = nth params n
bound_at params (negsuc k) = none

param_at-bound_at : (params : List (Option Text)) (r : ℤ) → param_at params r ≡ bound_at params r
param_at-bound_at params (pos zero) = refl
param_at-bound_at params (pos (suc k)) = refl
param_at-bound_at params (negsuc k) = refl

-- The format that a Bind gives a parameter, from 1: text, which is 0, where it gives none; the one that it
-- gives, where it gives one; and otherwise its own, or text past their end.
abbrev pub format_at : List ℕ → ℤ → Option ℕ
format_at [] r = some 0
format_at (code ∷ []) r = some code
format_at (c ∷ d ∷ codes) (negsuc k) = some 0
format_at (c ∷ d ∷ codes) (pos n) = elim (nth (c ∷ d ∷ codes) n) [
  | none ↦ some 0
  | some code ↦ some code
]

bind_format-format_at :
    (params : List (Option Text)) (codes : List ℕ) (r : ℤ)
    → is_some (param_at params r) ≡ true
    → some (bind_format codes (position r)) ≡ format_at codes r
unfolding bind_format
bind_format-format_at params [] r h = refl
bind_format-format_at params (code ∷ []) r h = refl
bind_format-format_at params (c ∷ d ∷ codes) (negsuc k) h = ground (arith, h)
bind_format-format_at params (c ∷ d ∷ codes) (pos zero) h = ground (arith, h)
bind_format-format_at params (c ∷ d ∷ codes) (pos (suc i)) h =
    ground (arith, Option-cases (get_elem? (c ∷ d ∷ codes) i))

nth_picked :
    (ps : List ℤ) (params : List (Option Text)) (codes : List ℕ) (w : List (Option Text) × List ℕ)
    (n : ℕ) (r : ℤ)
    → pick_params ps params codes ≡ some w
    → nth ps n ≡ some r
    → (nth w.0 n ≡ bound_at params r) × (nth w.1 n ≡ format_at codes r)
nth_picked ps params codes w zero r e h = ground arith
nth_picked ps params codes w (suc k) r e h =
    let p = picked ps params codes w k r e h in
    (p.0 ∙ param_at-bound_at params r, p.1 ∙ bind_format-format_at params codes r p.2)

all_picked :
    (ps : List ℤ) (params : List (Option Text)) (codes : List ℕ) (w : List (Option Text) × List ℕ)
    (ns : List ℕ) (refs : List ℤ)
    → pick_params ps params codes ≡ some w
    → map (nth ps) ns ≡ map some refs
    → (map (nth w.0) ns ≡ map (bound_at params) refs)
      × (map (nth w.1) ns ≡ map (format_at codes) refs)
all_picked ps params codes w [] [] e h = (refl, refl)
all_picked ps params codes w [] (r ∷ refs) e h = ground arith
all_picked ps params codes w (n ∷ ns) [] e h = ground arith
all_picked ps params codes w (n ∷ ns) (r ∷ refs) e h =
    let here : nth ps n ≡ some r = ground (arith, h) in
    let later : map (nth ps) ns ≡ map some refs = ground (arith, h) in
    let one = nth_picked ps params codes w n r e here in
    let rest = all_picked ps params codes w ns refs e later in
    (cons one.0 rest.0, cons one.1 rest.1)

-- When a statement's parameters are renumbered for its shadow, and the client bound a value at each of the
-- positions, the shadow finds at every new number the value that the client bound for the old one, and the
-- format that its Bind gives the old one: the one code for all, or the code at its place, and text where
-- there is none.
pub renumbered_values :
    (refs : List ℤ) (v : List ℤ × List ℕ) (params : List (Option Text)) (codes : List ℕ)
    (w : List (Option Text) × List ℕ)
    → renumber_params refs ≡ some v
    → pick_params v.0 params codes ≡ some w
    → (map (nth w.0) v.1 ≡ map (bound_at params) refs)
      × (map (nth w.1) v.1 ≡ map (format_at codes) refs)
renumbered_values refs v params codes w e h =
    all_picked v.0 params codes w v.1 refs h (renumber_params-Renumbers refs v e).points
