-- ===== src/Classify/Options.antt =====
-- internal/classify/eval.go: the options of sequences, identity columns and functions.
use dsql_emulator.Prelude.{
  Bool, true, false, not, ◌||◌, List, [], ◌∷◌, Option, none, some, leb, ◌==◌, if◌then◌else◌, Text,
  lit, text_eq, ℤ, pos, negsuc,
}
use dsql_emulator.Classify.Syntax.{
  Statement, DefElem, ColumnDef, Constraint, create_function_stmt, create_seq_stmt, create_stmt,
}
use dsql_emulator.Classify.Columns.{present, is_identity}

-- The first option of the name whose argument is of the kind that is read.
unfoldable pub find_option {ℓ} :
    {A : Type ℓ} → (DefElem → Option A) → Text → List DefElem → Option A
find_option read name [] = none
find_option read name (de ∷ des) =
    let rest = find_option read name des in
    if text_eq de.defname name then (elim (read de) [ none ↦ rest | some a ↦ some a ]) else rest

abbrev pub or_empty : Option Text → Text
or_empty none = []
or_empty (some s) = s

unfoldable pub function_language : Statement → Text
unfolding find_option present
function_language (create_function_stmt options) =
    or_empty (find_option (λ de. de.string_arg) (lit "language") (present options))
function_language _ = []

-- `defElemInt`; `none` is its `false`.
unfoldable pub def_elem_int : List (Option DefElem) → Text → Option ℤ
unfolding find_option present
def_elem_int options name = find_option (λ de. de.integer_arg) name (present options)

unfoldable pub sequence_cache : Statement → Option ℤ
unfolding def_elem_int
sequence_cache (create_seq_stmt options) = def_elem_int options (lit "cache")
sequence_cache _ = none

abbrev pub int_eq : ℤ → ℤ → Bool
int_eq (pos a) (pos b) = a == b
int_eq (negsuc a) (negsuc b) = a == b
int_eq _ _ = false

abbrev pub int_leb : ℤ → ℤ → Bool
int_leb (pos a) (pos b) = leb a b
int_leb (pos a) (negsuc b) = false
int_leb (negsuc a) (pos b) = true
int_leb (negsuc a) (negsuc b) = leb b a

unfoldable pub contains_int : List ℤ → ℤ → Bool
contains_int [] got = false
contains_int (w ∷ want) got = int_eq w got || contains_int want got

unfoldable pub cache_too_small : Option ℤ → ℤ → List ℤ → Bool
unfolding contains_int
cache_too_small none min allow = true
cache_too_small (some cache) min allow =
    if int_leb min cache then false else not (contains_int allow cache)

unfoldable pub any_small_cache : ℤ → List ℤ → List Constraint → Bool
unfolding cache_too_small def_elem_int
any_small_cache min allow [] = false
any_small_cache min allow (c ∷ cs) =
    let rest = any_small_cache min allow cs in
    if is_identity c
    then cache_too_small (def_elem_int c.options (lit "cache")) min allow || rest
    else rest

unfoldable pub any_small_column : ℤ → List ℤ → List ColumnDef → Bool
unfolding any_small_cache present
any_small_column min allow [] = false
any_small_column min allow (col ∷ cols) =
    any_small_cache min allow (present col.constraints) || any_small_column min allow cols

unfoldable pub has_small_identity_cache : Statement → ℤ → List ℤ → Bool
unfolding any_small_column present
has_small_identity_cache (create_stmt _ elts) min allow = any_small_column min allow (present elts)
has_small_identity_cache _ min allow = false
