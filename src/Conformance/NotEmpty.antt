-- ===== src/Conformance/NotEmpty.antt =====
-- What saving a record leaves in the directory, whatever fails.
use dsql_emulator.Prelude.{
  ◌≡◌, refl, ap, ◌∙◌, Bool, true, false, List, [], ◌∷◌, ◌++◌, map, is_nil, arith, Text,
  text_eq_refl, contains, ◌⊎◌, inl, inr, Bool-cases,
}
use dsql_emulator.Conformance.Data.{RecordedCase, Golden}
use dsql_emulator.Conformance.Files.{
  Store, read_file, remove_file, Disk, SaveError, not_removed, groups_of, file_of, save_all,
  json_names, prune, sorted_groups, pruned, saved_groups, save_dir, base_of,
}
use dsql_emulator.Conformance.Saved.{has_file, is_done, save_all-keeps, save_all-first, prune-keeps}

-- Whether a saving failed before it removed anything.
abbrev pub failed_early : SaveError ⊎ List Text → Bool
failed_early (inl (not_removed name)) = false
failed_early (inl _) = true
failed_early (inr changed) = false

prune-failed_early :
    (d : Disk) (written names : List Text) (s : Store) (changed : List Text)
    → failed_early (prune d written names s changed).1 ≡ false
unfolding prune
prune-failed_early d written [] s changed = refl
prune-failed_early d written (n ∷ names) s changed = ground (
  arith,
  prune-failed_early d written names s changed,
  prune-failed_early d written names (remove_file n s) (changed ++ base_of n ∷ []),
)

is_nil-groups_of :
    (order : List Text) (cases : List RecordedCase) (groups : List Text)
    → is_nil order ≡ false
    → groups_of order cases ≡ inr groups
    → is_nil groups ≡ false
unfolding groups_of
is_nil-groups_of order [] groups o h = ground (arith, o, h)
is_nil-groups_of [] (c ∷ cases) groups o h = ground arith
is_nil-groups_of (g ∷ order) (c ∷ cases) groups o h = ground (
  arith,
  h,
  is_nil-groups_of (g ∷ order) cases groups,
  is_nil-groups_of (g ∷ order ++ c.probe.group ∷ []) cases groups,
)

same_store : (x : Store × (SaveError ⊎ List Text)) → (sorted_groups x).0 ≡ x.0
same_store (s, inl e) = refl
same_store (s, inr changed) = refl

same_failure :
    (x : Store × (SaveError ⊎ List Text)) → failed_early (sorted_groups x).1 ≡ failed_early x.1
same_failure (s, inl e) = refl
same_failure (s, inr changed) = refl

pruned-keeps :
    (d : Disk) (groups : List Text) (out : Store × (SaveError ⊎ List Text)) (m : Text)
    → failed_early (pruned d groups out).1 ≡ true
    → has_file out.0 m ≡ true
    → has_file (pruned d groups out).0 m ≡ true
unfolding prune json_names read_file
pruned-keeps d groups (s, inl e) m f h = h
pruned-keeps d groups (s, inr changed) m f h =
    let x = prune d (map file_of groups) (json_names s) s changed in
    ground
      (arith, f, same_failure x, prune-failed_early d (map file_of groups) (json_names s) s changed)

pruned-written :
    (d : Disk) (groups : List Text) (out : Store × (SaveError ⊎ List Text)) (m : Text)
    → contains (map file_of groups) m ≡ true
    → has_file out.0 m ≡ true
    → has_file (pruned d groups out).0 m ≡ true
unfolding prune json_names read_file
pruned-written d groups (s, inl e) m w h = h
pruned-written d groups (s, inr changed) m w h =
    let x = prune d (map file_of groups) (json_names s) s changed in
    ap (λ st. has_file st m) (same_store x)
    ∙ prune-keeps d (map file_of groups) (json_names s) s changed m w h

pruned-failed :
    (d : Disk) (groups : List Text) (out : Store × (SaveError ⊎ List Text)) (e : SaveError)
    → out.1 ≡ inl e
    → (pruned d groups out).0 ≡ out.0
unfolding prune json_names
pruned-failed d groups (s, inl f) e h = refl
pruned-failed d groups (s, inr changed) e h = ground arith

some_file : (s : Store) → is_nil s ≡ false → (m : Text) × (has_file s m ≡ true)
unfolding read_file
some_file [] h = ground arith
some_file ((n, bytes) ∷ s) h = (n, ground (arith, text_eq_refl n))

not_empty : (s : Store) (m : Text) → has_file s m ≡ true → is_nil s ≡ false
unfolding read_file
not_empty [] m h = ground arith
not_empty (f ∷ s) m h = refl

done_or_not : (x : SaveError ⊎ List Text) → (is_done x ≡ true) ⊎ ((e : SaveError) × (x ≡ inl e))
done_or_not (inl e) = inr (e, refl)
done_or_not (inr changed) = inl refl

groups_not_empty :
    (d : Disk) (g : Golden) (s : Store) (groups : List Text)
    → is_nil groups ≡ false
    → is_nil s ≡ false
    → is_nil (saved_groups d g s (inr groups)).0 ≡ false
unfolding prune json_names save_all contains
groups_not_empty d g s [] n h = ground arith
groups_not_empty d g s (group ∷ groups) n h =
    let all = save_all d g (group ∷ groups) s [] in
    elim (done_or_not all.1) [
      | inl p ↦
          let written : contains (map file_of (group ∷ groups)) (file_of group) ≡ true =
            ground (arith, text_eq_refl (file_of group)) in
          not_empty _ (file_of group) (
            pruned-written d (group ∷ groups) all (file_of group) written
              (save_all-first d g group groups s [] p))
      | inr (e, p) ↦
          let (m, here) = some_file s h in
          ap is_nil (pruned-failed d (group ∷ groups) all e p)
          ∙ not_empty all.0 m (save_all-keeps d g (group ∷ groups) s [] m here)
    ]

some_group :
    (cases : List RecordedCase) (groups : List Text)
    → is_nil cases ≡ false
    → groups_of [] cases ≡ inr groups
    → is_nil groups ≡ false
unfolding groups_of contains
some_group [] groups c h = ground arith
some_group (c ∷ cases) groups n h =
    ground (arith, h, is_nil-groups_of (c.probe.group ∷ []) cases groups refl)

groups_or_error :
    (x : SaveError ⊎ List Text)
    → ((e : SaveError) × (x ≡ inl e)) ⊎ ((gs : List Text) × (x ≡ inr gs))
groups_or_error (inl e) = inl (e, refl)
groups_or_error (inr gs) = inr (gs, refl)

-- Saving a record never leaves a directory empty that held a file, whichever write or removal fails.
pub save_dir_not_empty :
    (d : Disk) (s : Store) (g : Golden) → is_nil s ≡ false → is_nil (save_dir d s g).0 ≡ false
unfolding save_dir groups_of prune json_names save_all
save_dir_not_empty d s g h = elim (Bool-cases (is_nil g.cases)) [
  | inl p ↦ ground (arith, p, h)
  | inr p ↦ elim (groups_or_error (groups_of [] g.cases)) [
    | inl (e, q) ↦ ground (arith, p, q, h)
    | inr (gs, q) ↦ ground (arith, p, q, groups_not_empty d g s gs (some_group g.cases gs p q) h)
  ]
]

-- Where saving a record fails before a file is removed, because the record has no cases or a case no
-- group, or because a record cannot be written, no file that was in the directory is gone.
pub save_dir-keeps :
    (d : Disk) (s : Store) (g : Golden) (m : Text)
    → failed_early (save_dir d s g).1 ≡ true
    → has_file s m ≡ true
    → has_file (save_dir d s g).0 m ≡ true
unfolding save_dir groups_of prune json_names save_all read_file
save_dir-keeps d s g m f h = elim (Bool-cases (is_nil g.cases)) [
  | inl p ↦ ground (arith, p, h)
  | inr p ↦ elim (groups_or_error (groups_of [] g.cases)) [
    | inl (e, q) ↦ ground (arith, p, q, h)
    | inr (gs, q) ↦
        let all = save_all d g gs s [] in
        let failed : failed_early (pruned d gs all).1 ≡ true = ground (arith, p, q, f) in
        let kept = pruned-keeps d gs all m failed (save_all-keeps d g gs s [] m h) in
        ground (arith, p, q, kept)
  ]
]
