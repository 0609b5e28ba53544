-- ===== src/Occ/Tree.antt =====
-- The messages of a parse tree that internal/occ/occ.go builds, walks and rewrites.
use dsql_emulator.Prelude.{ℕ, List, [], ◌∷◌, ◌++◌, map, Option, none, some, Text, ℤ, pos}
use dsql_emulator.Occ.Renumber.{collect, sort, place_of}

-- A message with its name, its scalar fields and the messages in its fields, a list's under one name; and a
-- `Node` that holds a ParamRef, with the number of that. What says where in the text a message stands is
-- left out.
mutual
  pub data Tree : Type 0 where
    msg : Text → List (Text × Text) → Fields → Tree
    param_ref : ℤ → Tree

  pub data Fields : Type 0 where
    nil : Fields
    field : Text → Tree → Fields → Fields

-- The numbers of the parameters, in the order of `walk`.
unfoldable mutual
  pub refs_of : Tree → List ℤ
  refs_of (msg name scalars fields) = refs_in fields
  refs_of (param_ref n) = n ∷ []

  pub refs_in : Fields → List ℤ
  refs_in nil = []
  refs_in (field name t fields) = refs_of t ++ refs_in fields

-- The loop that writes the new numbers.
unfoldable mutual
  pub relabel : List ℕ → Tree → Tree
  relabel positions (msg name scalars fields) = msg name scalars (relabel_in positions fields)
  relabel positions (param_ref n) = param_ref (pos (place_of positions n))

  pub relabel_in : List ℕ → Fields → Fields
  relabel_in positions nil = nil
  relabel_in positions (field name t fields) =
      field name (relabel positions t) (relabel_in positions fields)

abbrev pub relabelled : Tree → List ℤ → Option (List ℕ) → Option (List ℤ × Tree)
unfolding relabel
relabelled t [] order = some ([], t)
relabelled t (r ∷ refs) none = none
relabelled t (r ∷ refs) (some order) = some (map pos (sort order), relabel (sort order) t)

-- `renumberParams`, with the tree as it leaves it.
unfoldable pub renumber_tree : Tree → Option (List ℤ × Tree)
unfolding refs_of relabel
renumber_tree t = relabelled t (refs_of t) (collect [] (refs_of t))
