-- ===== src/Conformance/Files.antt =====
-- `Save` and `SaveDir` of internal/conformance/record.go, on a directory that exists: the names of its files
-- with their contents. A file is named by its group, so that a group is taken to be no path.
use dsql_emulator.Prelude.{
  Bool, true, false, List, [], ◌∷◌, ◌++◌, map, is_nil, if◌then◌else◌, Option, none, some, Text, lit,
  text_eq, contains, ◌⊎◌, inl, inr, length, ◌-◌, drop, take, text_less, sort_by,
}
use dsql_emulator.Conformance.Data.{RecordedCase, Golden}
use dsql_emulator.Conformance.Content.{content}

abbrev pub Store : Type 0
Store = List (Text × Text)

unfoldable pub read_file : Store → Text → Option Text
read_file [] name = none
read_file ((n, bytes) ∷ store) name =
    let rest = read_file store name in if text_eq n name then some bytes else rest

unfoldable pub write_file : Text → Text → Store → Store
write_file name bytes [] = (name, bytes) ∷ []
write_file name bytes ((n, old) ∷ store) =
    let rest = write_file name bytes store in
    if text_eq n name then (n, bytes) ∷ store else (n, old) ∷ rest

unfoldable pub remove_file : Text → Store → Store
remove_file name [] = []
remove_file name ((n, bytes) ∷ store) =
    let rest = remove_file name store in if text_eq n name then rest else (n, bytes) ∷ rest

-- The codec of records, and the calls of the system that fail. A write that fails leaves the file as it was,
-- or with something in it.
pub record Disk : Type 0 where
  pub unmarshal : Text → Option Golden
  pub marshal : Golden → Option Text
  pub marshal_indent : Golden → Option Text
  pub write_fails : Store → Text → Option (Option Text)
  pub remove_fails : Store → Text → Bool

abbrev pub marshalled : Disk → Option Golden → Option Text
unfolding content
marshalled d none = none
marshalled d (some g) = d.marshal (content g)

abbrev pub loaded : Disk → Option Text → Option Golden
loaded d none = none
loaded d (some bytes) = d.unmarshal bytes

abbrev pub both_equal : Option Text → Option Text → Bool
both_equal (some was) (some now) = text_eq was now
both_equal _ _ = false

-- `sameContent`.
unfoldable pub same_content : Disk → Store → Text → Golden → Bool
unfolding content
same_content d store name golden =
    both_equal (marshalled d (loaded d (read_file store name))) (marshalled d (some golden))

pub data SaveError : Type 0 where
  no_cases : SaveError
  no_group : Text → SaveError
  not_marshalled not_written not_removed : Text → SaveError

-- `Save`: whether it wrote.
abbrev pub after_write : Text → Text → Store → Option (Option Text) → Store × (SaveError ⊎ Bool)
unfolding write_file
after_write name bytes store none = (write_file name bytes store, inr true)
after_write name bytes store (some none) = (store, inl (not_written name))
after_write name bytes store (some (some torn)) =
    (write_file name torn store, inl (not_written name))

abbrev pub write_record : Disk → Store → Text → Option Text → Store × (SaveError ⊎ Bool)
unfolding write_file
write_record d store name none = (store, inl (not_marshalled name))
write_record d store name (some bytes) =
    after_write name (bytes ++ b'\n' ∷ []) store (d.write_fails store name)

unfoldable pub save : Disk → Store → Text → Golden → Store × (SaveError ⊎ Bool)
unfolding same_content write_file
save d store name golden =
    if same_content d store name golden
    then (store, inr false)
    else write_record d store name (d.marshal_indent golden)

-- The groups in the order in which they appear.
unfoldable pub groups_of : List Text → List RecordedCase → SaveError ⊎ List Text
groups_of order [] = inr order
groups_of order (c ∷ cases) =
    let known = groups_of order cases in
    let fresh = groups_of (order ++ c.probe.group ∷ []) cases in
    if is_nil c.probe.group
    then inl (no_group c.probe.name)
    else if contains order c.probe.group
    then known
    else fresh

unfoldable pub by_group : Text → List RecordedCase → List RecordedCase
by_group group [] = []
by_group group (c ∷ cases) =
    let rest = by_group group cases in if text_eq c.probe.group group then c ∷ rest else rest

abbrev pub file_of : Text → Text
file_of group = group ++ lit ".json"

-- The loop over the groups: the groups that changed so far.
unfoldable pub save_all :
    Disk → Golden → List Text → Store → List Text → Store × (SaveError ⊎ List Text)
unfolding save by_group
save_all d golden [] store changed = (store, inr changed)
save_all d golden (group ∷ groups) store changed =
    let one =
      save d store (file_of group) (record golden { cases = by_group group golden.cases }) in
    elim one.1 [
      | inl e ↦ (one.0, inl e)
      | inr wrote ↦
          save_all d golden groups one.0 (if wrote then changed ++ group ∷ [] else changed)
    ]

-- Whether a name ends in ".json", and what is left of it.
abbrev pub base_of : Text → Text
base_of name = take (length name - 5) name

abbrev pub is_json : Text → Bool
is_json name = text_eq (drop (length name - 5) name) (lit ".json")

unfoldable pub json_names : Store → List Text
json_names [] = []
json_names ((n, bytes) ∷ store) =
    let rest = json_names store in if is_json n then n ∷ rest else rest

-- The loop over the files that are there.
unfoldable pub prune :
    Disk → List Text → List Text → Store → List Text → Store × (SaveError ⊎ List Text)
unfolding remove_file
prune d written [] store changed = (store, inr changed)
prune d written (name ∷ names) store changed = elim (contains written name) [
  | true ↦ prune d written names store changed
  | false ↦ elim (d.remove_fails store name) [
    | true ↦ (store, inl (not_removed name))
    | false ↦ prune d written names (remove_file name store) (changed ++ base_of name ∷ [])
  ]
]

abbrev pub sorted_groups : Store × (SaveError ⊎ List Text) → Store × (SaveError ⊎ List Text)
sorted_groups (store, inl e) = (store, inl e)
sorted_groups (store, inr changed) = (store, inr (sort_by text_less changed))

abbrev pub pruned :
    Disk → List Text → Store × (SaveError ⊎ List Text) → Store × (SaveError ⊎ List Text)
unfolding prune json_names
pruned d groups (store, inl e) = (store, inl e)
pruned d groups (store, inr changed) =
    sorted_groups (prune d (map file_of groups) (json_names store) store changed)

abbrev pub saved_groups :
    Disk → Golden → Store → SaveError ⊎ List Text → Store × (SaveError ⊎ List Text)
unfolding prune json_names save_all
saved_groups d golden store (inl e) = (store, inl e)
saved_groups d golden store (inr groups) = pruned d groups (save_all d golden groups store [])

-- `SaveDir`.
unfoldable pub save_dir : Disk → Store → Golden → Store × (SaveError ⊎ List Text)
unfolding groups_of prune json_names save_all
save_dir d store golden =
    if is_nil golden.cases
    then (store, inl no_cases)
    else saved_groups d golden store (groups_of [] golden.cases)
