-- ===== src/Occ/Relabelled.antt =====
-- What the renumbering of a tree does: only the numbers of its parameters change, as `renumber_params` says.
use dsql_emulator.Prelude.{
  ℕ, ◌≡◌, refl, ap, sym, ◌∙◌, subst, List, [], ◌∷◌, ◌++◌, map, some, arith, ℤ, pos, Option-cases,
  inl, inr,
}
use dsql_emulator.Occ.Renumber.{collect, sort, place_of, renumber_params}
use dsql_emulator.Occ.Tree.{
  Tree, Fields, msg, param_ref, nil, field, refs_of, refs_in, relabel, relabel_in, relabelled,
  renumber_tree,
}

-- A tree without the numbers of its parameters.
unfoldable mutual
  pub unnumbered : Tree → Tree
  unnumbered (msg name scalars fields) = msg name scalars (unnumbered_in fields)
  unnumbered (param_ref n) = param_ref (pos 0)

  pub unnumbered_in : Fields → Fields
  unnumbered_in nil = nil
  unnumbered_in (field name t fields) = field name (unnumbered t) (unnumbered_in fields)

mutual
  unfolding unnumbered unnumbered_in relabel relabel_in

  unnumbered-relabel : (xs : List ℕ) (t : Tree) → unnumbered (relabel xs t) ≡ unnumbered t
  unnumbered-relabel xs (msg name scalars fields) =
      ap (msg name scalars) (unnumbered_in-relabel_in xs fields)
  unnumbered-relabel xs (param_ref n) = refl

  unnumbered_in-relabel_in :
      (xs : List ℕ) (f : Fields) → unnumbered_in (relabel_in xs f) ≡ unnumbered_in f
  unnumbered_in-relabel_in xs nil = refl
  unnumbered_in-relabel_in xs (field name t fields) =
      ap (λ u. field name u (unnumbered_in (relabel_in xs fields))) (unnumbered-relabel xs t)
      ∙ ap (field name (unnumbered t)) (unnumbered_in-relabel_in xs fields)

abbrev new_number : List ℕ → ℤ → ℤ
new_number xs n = pos (place_of xs n)

map-append : (f : ℤ → ℤ) (xs ys : List ℤ) → map f (xs ++ ys) ≡ map f xs ++ map f ys
map-append f [] ys = refl
map-append f (x ∷ xs) ys = ap (λ t. f x ∷ t) (map-append f xs ys)

mutual
  unfolding refs_of refs_in relabel relabel_in

  refs_of-relabel :
      (xs : List ℕ) (t : Tree) → refs_of (relabel xs t) ≡ map (new_number xs) (refs_of t)
  refs_of-relabel xs (msg name scalars fields) = refs_in-relabel_in xs fields
  refs_of-relabel xs (param_ref n) = refl

  refs_in-relabel_in :
      (xs : List ℕ) (f : Fields) → refs_in (relabel_in xs f) ≡ map (new_number xs) (refs_in f)
  refs_in-relabel_in xs nil = refl
  refs_in-relabel_in xs (field name t fields) =
      ap (λ r. r ++ refs_in (relabel_in xs fields)) (refs_of-relabel xs t)
      ∙ (ap (λ r. map (new_number xs) (refs_of t) ++ r) (refs_in-relabel_in xs fields)
          ∙ sym (map-append (new_number xs) (refs_of t) (refs_in fields)))

map-map :
    (xs : List ℕ) (refs : List ℤ) → map (new_number xs) refs ≡ map pos (map (place_of xs) refs)
map-map xs [] = refl
map-map xs (r ∷ refs) = ap (λ t. new_number xs r ∷ t) (map-map xs refs)

pub record IsRenumbered (t : Tree) (v : List ℤ × Tree) : Type 0 where
  pub only_numbers : unnumbered v.1 ≡ unnumbered t
  pub numbers : List ℕ
  pub written : refs_of v.1 ≡ map pos numbers
  pub renumbers : renumber_params (refs_of t) ≡ some (v.0, numbers)

relabelled-IsRenumbered :
    (t : Tree) (refs : List ℤ) (v : List ℤ × Tree)
    → refs_of t ≡ refs
    → relabelled t refs (collect [] refs) ≡ some v
    → IsRenumbered t v
unfolding renumber_params relabel
relabelled-IsRenumbered t [] v r e =
    let q : ([], t) ≡ v = ground (arith, e) in
    subst (IsRenumbered t) q
      (record { only_numbers = refl; numbers = []; written = r; renumbers = rw r refl })
relabelled-IsRenumbered t (r ∷ refs) v same e = elim (Option-cases (collect [] (r ∷ refs))) [
  | inl p ↦ ground (arith, p, e)
  | inr (order, p) ↦
      let q : (map pos (sort order), relabel (sort order) t) ≡ v = ground (arith, p, e) in
      subst (IsRenumbered t) q (record {
        only_numbers = unnumbered-relabel (sort order) t;
        numbers = map (place_of (sort order)) (r ∷ refs);
        written =
            refs_of-relabel (sort order) t
            ∙ (ap (map (new_number (sort order))) same ∙ map-map (sort order) (r ∷ refs));
        renumbers = rw same (ground (arith, p));
      })
]

pub renumber_tree-IsRenumbered :
    (t : Tree) (v : List ℤ × Tree) → renumber_tree t ≡ some v → IsRenumbered t v
unfolding renumber_tree relabel refs_of
renumber_tree-IsRenumbered t v e = relabelled-IsRenumbered t (refs_of t) v refl e
