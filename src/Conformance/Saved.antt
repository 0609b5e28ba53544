-- ===== src/Conformance/Saved.antt =====
-- The loops of SaveDir: which files are there after each.
use dsql_emulator.Prelude.{
  ◌≡◌, refl, ap, Bool, true, false, not, ◌&&◌, ◌||◌, List, [], ◌∷◌, ◌++◌, is_some, if◌then◌else◌,
  arith, Option, none, some, Text, text_eq, text_eq_refl, text_eq_sound, contains, ◌⊎◌, inl, inr,
  Bool-cases, Option-cases,
}
use dsql_emulator.Conformance.Content.{content}
use dsql_emulator.Conformance.Data.{Golden}
use dsql_emulator.Conformance.Files.{
  Store, read_file, write_file, remove_file, Disk, same_content, SaveError, after_write,
  write_record, save, by_group, file_of, save_all, prune, base_of,
}

-- Whether a file of that name is there.
abbrev pub has_file : Store → Text → Bool
unfolding read_file
has_file store name = is_some (read_file store name)

has_file-write :
    (n t : Text) (s : Store) (m : Text)
    → has_file (write_file n t s) m ≡ text_eq n m || has_file s m
unfolding read_file write_file
has_file-write n t [] m = ground arith
has_file-write n t ((k, old) ∷ s) m =
    ground (arith, has_file-write n t s m, text_eq_sound k n, text_eq_refl k)

has_file-remove :
    (n : Text) (s : Store) (m : Text)
    → has_file (remove_file n s) m ≡ not (text_eq n m) && has_file s m
unfolding read_file remove_file
has_file-remove n [] m = ground arith
has_file-remove n ((k, old) ∷ s) m = ground (
  arith,
  has_file-remove n s m,
  text_eq_sound k n,
  text_eq_sound k m,
  text_eq_sound n m,
  text_eq_refl n,
  text_eq_refl m,
)

abbrev is_saved : SaveError ⊎ Bool → Bool
is_saved (inl e) = false
is_saved (inr wrote) = true

-- No file is gone, and the one of that name is there if it was saved.
abbrev Keeps : Store → Text → Store × (SaveError ⊎ Bool) → Type 0
unfolding read_file
Keeps s n out =
    ((m : Text) → has_file s m ≡ true → has_file out.0 m ≡ true)
    × (is_saved out.1 ≡ true → has_file out.0 n ≡ true)

after_write-Keeps :
    (n bytes : Text) (s : Store) (fails : Option (Option Text))
    → Keeps s n (after_write n bytes s fails)
unfolding read_file write_file
after_write-Keeps n bytes s none = (
  λ m h. ground (arith, has_file-write n bytes s m, h),
  λ h. ground (arith, has_file-write n bytes s n, text_eq_refl n),
)
after_write-Keeps n bytes s (some none) = (λ m h. h, λ h. ground (arith, h))
after_write-Keeps n bytes s (some (some torn)) =
    (λ m h. ground (arith, has_file-write n torn s m, h), λ h. ground (arith, h))

write_record-Keeps :
    (d : Disk) (s : Store) (n : Text) (bytes : Option Text) → Keeps s n (write_record d s n bytes)
unfolding read_file write_file
write_record-Keeps d s n none = (λ m h. h, λ h. ground (arith, h))
write_record-Keeps d s n (some bytes) =
    after_write-Keeps n (bytes ++ b'\n' ∷ []) s (d.write_fails s n)

same_content-has_file :
    (d : Disk) (s : Store) (n : Text) (g : Golden)
    → same_content d s n g ≡ true
    → has_file s n ≡ true
unfolding same_content read_file content
same_content-has_file d s n g h = ground (arith, h, Option-cases (read_file s n))

save-Keeps : (d : Disk) (s : Store) (n : Text) (g : Golden) → Keeps s n (save d s n g)
unfolding save read_file write_file
save-Keeps d s n g = elim (Bool-cases (same_content d s n g)) [
  | inl p ↦ (λ m h. ground (arith, p, h), λ h. ground (arith, p, same_content-has_file d s n g p))
  | inr p ↦
      let w = write_record-Keeps d s n (d.marshal_indent g) in
      (λ m h. ground (arith, p, w.0 m h), λ h. ground (arith, p, w.1 (ground (arith, p, h))))
]

abbrev pub is_done : SaveError ⊎ List Text → Bool
is_done (inl e) = false
is_done (inr changed) = true

saved_or_not :
    (x : SaveError ⊎ Bool) → ((e : SaveError) × (x ≡ inl e)) ⊎ ((wrote : Bool) × (x ≡ inr wrote))
saved_or_not (inl e) = inl (e, refl)
saved_or_not (inr wrote) = inr (wrote, refl)

-- The loop over the groups drops no file, and once it is done the file of each group is there.
pub save_all-keeps :
    (d : Disk) (g : Golden) (groups : List Text) (s : Store) (changed : List Text) (m : Text)
    → has_file s m ≡ true
    → has_file (save_all d g groups s changed).0 m ≡ true
unfolding save_all read_file
save_all-keeps d g [] s changed m h = h
save_all-keeps d g (group ∷ groups) s changed m h =
    let one = save d s (file_of group) (record g { cases = by_group group g.cases }) in
    let kept : has_file one.0 m ≡ true =
      (save-Keeps d s (file_of group) (record g { cases = by_group group g.cases })).0 m h in
    elim (saved_or_not one.1) [
      | inl (e, p) ↦ ground (arith, p, kept)
      | inr (wrote, p) ↦
          let rest =
            save_all-keeps d g groups one.0 (if wrote then changed ++ group ∷ [] else changed) m
              kept in
          ground (arith, p, rest)
    ]

pub save_all-first :
    (d : Disk) (g : Golden) (group : Text) (groups : List Text) (s : Store) (changed : List Text)
    → is_done (save_all d g (group ∷ groups) s changed).1 ≡ true
    → has_file (save_all d g (group ∷ groups) s changed).0 (file_of group) ≡ true
unfolding save_all read_file
save_all-first d g group groups s changed h =
    let one = save d s (file_of group) (record g { cases = by_group group g.cases }) in
    elim (saved_or_not one.1) [
      | inl (e, p) ↦ ground (arith, p, h)
      | inr (wrote, p) ↦
          let there : has_file one.0 (file_of group) ≡ true =
            (save-Keeps d s (file_of group) (record g { cases = by_group group g.cases })).1
              (ground (arith, p)) in
          let rest =
            save_all-keeps d g groups one.0 (if wrote then changed ++ group ∷ [] else changed)
              (file_of group) there in
          ground (arith, p, rest)
    ]

differs :
    (written : List Text) (n m : Text)
    → contains written m ≡ true
    → contains written n ≡ false
    → text_eq n m ≡ false
differs written n m w p = elim (Bool-cases (text_eq n m)) [
  | inl e ↦ ground (arith, p, w, ap (contains written) (text_eq_sound n m e))
  | inr e ↦ e
]

-- Pruning leaves the files that were written.
pub prune-keeps :
    (d : Disk) (written names : List Text) (s : Store) (changed : List Text) (m : Text)
    → contains written m ≡ true
    → has_file s m ≡ true
    → has_file (prune d written names s changed).0 m ≡ true
unfolding prune read_file contains
prune-keeps d written [] s changed m w h = h
prune-keeps d written (n ∷ names) s changed m w h = elim (Bool-cases (contains written n)) [
  | inl p ↦ ground (arith, p, prune-keeps d written names s changed m w h)
  | inr p ↦ elim (Bool-cases (d.remove_fails s n)) [
    | inl q ↦ ground (arith, p, q, h)
    | inr q ↦
        let other : text_eq n m ≡ false = differs written n m w p in
        let there : has_file (remove_file n s) m ≡ true =
          ground (arith, has_file-remove n s m, other, h) in
        let rest =
          prune-keeps d written names (remove_file n s) (changed ++ base_of n ∷ []) m w there in
        ground (arith, p, q, rest)
  ]
]
