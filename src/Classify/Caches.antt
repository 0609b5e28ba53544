-- ===== src/Classify/Caches.antt =====
-- Which identity columns have a cache that DSQL accepts.
use dsql_emulator.Prelude.{
  ◌≡◌, refl, Bool, true, false, not, ◌&&◌, ◌||◌, List, [], ◌∷◌, ◌++◌, Option, none, some, arith,
  if◌then◌else◌, lit, ℤ,
}
use dsql_emulator.Classify.Syntax.{Constraint, ColumnDef, RangeVar, create_stmt}
use dsql_emulator.Classify.Columns.{present, is_identity}
use dsql_emulator.Classify.Options.{
  def_elem_int, int_leb, contains_int, cache_too_small, any_small_cache, any_small_column,
  has_small_identity_cache,
}

-- A cache of at least `min`, or one of those allowed beside.
abbrev pub is_allowed : ℤ → List ℤ → Option ℤ → Bool
is_allowed min allow none = false
is_allowed min allow (some cache) = int_leb min cache || contains_int allow cache

-- The identity constraints of all columns.
unfoldable pub identities_of : List Constraint → List Constraint
identities_of [] = []
identities_of (c ∷ cs) = let rest = identities_of cs in if is_identity c then c ∷ rest else rest

unfoldable pub identities : List ColumnDef → List Constraint
unfolding identities_of present
identities [] = []
identities (col ∷ cols) = identities_of (present col.constraints) ++ identities cols

unfoldable pub all_allowed : ℤ → List ℤ → List Constraint → Bool
all_allowed min allow [] = true
all_allowed min allow (c ∷ cs) =
    is_allowed min allow (def_elem_int c.options (lit "cache")) && all_allowed min allow cs

all_allowed-append :
    (min : ℤ) (allow : List ℤ) (xs ys : List Constraint)
    → all_allowed min allow (xs ++ ys) ≡ all_allowed min allow xs && all_allowed min allow ys
unfolding all_allowed
all_allowed-append min allow [] ys = refl
all_allowed-append min allow (x ∷ xs) ys = ground (arith, all_allowed-append min allow xs ys)

cache_too_small-not :
    (o : Option ℤ) (min : ℤ) (allow : List ℤ)
    → cache_too_small o min allow ≡ not (is_allowed min allow o)
unfolding cache_too_small
cache_too_small-not none min allow = refl
cache_too_small-not (some c) min allow = ground arith

any_small_cache-not :
    (min : ℤ) (allow : List ℤ) (cs : List Constraint)
    → any_small_cache min allow cs ≡ not (all_allowed min allow (identities_of cs))
unfolding any_small_cache identities_of all_allowed
any_small_cache-not min allow [] = refl
any_small_cache-not min allow (c ∷ cs) = ground (
  arith,
  cache_too_small-not (def_elem_int c.options (lit "cache")) min allow,
  any_small_cache-not min allow cs,
)

any_small_column-not :
    (min : ℤ) (allow : List ℤ) (cols : List ColumnDef)
    → any_small_column min allow cols ≡ not (all_allowed min allow (identities cols))
unfolding any_small_column identities all_allowed
any_small_column-not min allow [] = refl
any_small_column-not min allow (col ∷ cols) = ground (
  arith,
  any_small_cache-not min allow (present col.constraints),
  all_allowed-append min allow (identities_of (present col.constraints)) (identities cols),
  any_small_column-not min allow cols,
)

-- A CREATE TABLE has an identity column whose cache is too small exactly when, of the identity constraints
-- of its columns, not every one states a cache that is at least the least one or is among those allowed.
pub has_small_identity_cache-not :
    (rel : Option RangeVar) (elts : List (Option ColumnDef)) (min : ℤ) (allow : List ℤ)
    → has_small_identity_cache (create_stmt rel elts) min allow
      ≡ not (all_allowed min allow (identities (present elts)))
unfolding has_small_identity_cache
has_small_identity_cache-not rel elts min allow = any_small_column-not min allow (present elts)
