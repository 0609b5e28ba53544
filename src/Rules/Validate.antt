-- ===== src/Rules/Validate.antt =====
-- `validate` of rules/rules.go, and the rulesets that it lets pass.
use dsql_emulator.Prelude.{
  ℕ, ◌+◌, ◌≡◌, ◌↔◌, refl, Bool, false, ◌||◌, List, [], ◌∷◌, Option, none, some, arith,
  if◌then◌else◌, Text, is_nil, contains, ℤ, is_negative, plain_spaces, trim_space,
}
use dsql_emulator.Rules.{Ruleset, Rule, Occ, OccInjection}

-- The errors of the source, each with what its message names.
pub data Fault : Type 0 where
  no_version no_levels : Fault
  rule_without_id : ℕ → Fault
  duplicate_rule rule_without_stmt rule_without_code rule_without_message : Text → Fault
  negative_timeout : ℤ → Fault
  injection_without_id : ℕ → Fault
  duplicate_injection empty_table : Text → Fault
  negative_every : Text → ℤ → Fault

abbrev or_else : Option Fault → Option Fault → Option Fault
or_else none rest = rest
or_else (some f) rest = some f

unfoldable pub rule_fault : ℕ → List Text → Rule → Option Fault
rule_fault i seen r =
    if is_nil r.id
    then some (rule_without_id i)
    else if contains seen r.id
    then some (duplicate_rule r.id)
    else if is_nil r.stmt
    then some (rule_without_stmt r.id)
    else if is_nil r.code
    then some (rule_without_code r.id)
    else if is_nil r.message
    then some (rule_without_message r.id)
    else none

unfoldable pub rules_fault : ℕ → List Text → List Rule → Option Fault
rules_fault i seen [] = none
rules_fault i seen (r ∷ rs) = or_else (rule_fault i seen r) (rules_fault (i + 1) (r.id ∷ seen) rs)

-- `strings.TrimSpace(table) == ""`.
unfoldable pub is_blank : Text → Bool
is_blank table = is_nil (trim_space (plain_spaces table))

unfoldable pub has_blank : List Text → Bool
has_blank [] = false
has_blank (t ∷ ts) = is_blank t || has_blank ts

unfoldable pub injection_fault : ℕ → List Text → OccInjection → Option Fault
injection_fault i seen inj =
    if is_nil inj.id
    then some (injection_without_id i)
    else if contains seen inj.id
    then some (duplicate_injection inj.id)
    else if is_negative inj.every
    then some (negative_every inj.id inj.every)
    else if has_blank inj.tables
    then some (empty_table inj.id)
    else none

unfoldable pub injections_fault : ℕ → List Text → List OccInjection → Option Fault
injections_fault i seen [] = none
injections_fault i seen (j ∷ js) =
    or_else (injection_fault i seen j) (injections_fault (i + 1) (j.id ∷ seen) js)

unfoldable pub occ_fault : Occ → Option Fault
occ_fault o =
    if is_negative o.lock_timeout_ms
    then some (negative_timeout o.lock_timeout_ms)
    else injections_fault 0 [] o.inject

-- `none` is no error.
unfoldable pub validate : Ruleset → Option Fault
validate rs =
    if is_nil rs.dsql_version
    then some no_version
    else if is_nil rs.isolation.supported
    then some no_levels
    else or_else (rules_fault 0 [] rs.unsupported) (occ_fault rs.occ)

-- A rule that states what it must.
pub record IsStated (r : Rule) : Type 0 where
  pub id : is_nil r.id ≡ false
  pub stmt : is_nil r.stmt ≡ false
  pub code : is_nil r.code ≡ false
  pub message : is_nil r.message ≡ false

-- Every rule is stated, and none has the id of one before it, nor of one in `seen`.
abbrev pub AreDistinct : List Text → List Rule → Type 0
AreDistinct seen [] = Unit {0}
AreDistinct seen (r ∷ rs) = IsStated r × (contains seen r.id ≡ false) × AreDistinct (r.id ∷ seen) rs

abbrev pub AreInjectable : List Text → List OccInjection → Type 0
AreInjectable seen [] = Unit {0}
AreInjectable seen (j ∷ js) =
    (is_nil j.id ≡ false)
    × (contains seen j.id ≡ false)
    × (is_negative j.every ≡ false)
    × (has_blank j.tables ≡ false)
    × AreInjectable (j.id ∷ seen) js

pub record IsValid (rs : Ruleset) : Type 0 where
  pub version : is_nil rs.dsql_version ≡ false
  pub levels : is_nil rs.isolation.supported ≡ false
  pub rules : AreDistinct [] rs.unsupported
  pub timeout : is_negative rs.occ.lock_timeout_ms ≡ false
  pub injections : AreInjectable [] rs.occ.inject

rules_fault_sound :
    (i : ℕ) (seen : List Text) (rs : List Rule) → rules_fault i seen rs ≡ none → AreDistinct seen rs
unfolding rules_fault rule_fault
rules_fault_sound i seen [] h = tt
rules_fault_sound i seen (r ∷ rs) h = ground (arith, rules_fault_sound (i + 1) (r.id ∷ seen) rs)

rules_fault_complete :
    (i : ℕ) (seen : List Text) (rs : List Rule) → AreDistinct seen rs → rules_fault i seen rs ≡ none
unfolding rules_fault rule_fault
rules_fault_complete i seen [] h = refl
rules_fault_complete i seen (r ∷ rs) h =
    ground (arith, rules_fault_complete (i + 1) (r.id ∷ seen) rs)

injections_sound :
    (i : ℕ) (seen : List Text) (js : List OccInjection)
    → injections_fault i seen js ≡ none
    → AreInjectable seen js
unfolding injections_fault injection_fault
injections_sound i seen [] h = tt
injections_sound i seen (j ∷ js) h = ground (arith, injections_sound (i + 1) (j.id ∷ seen) js)

injections_complete :
    (i : ℕ) (seen : List Text) (js : List OccInjection)
    → AreInjectable seen js
    → injections_fault i seen js ≡ none
unfolding injections_fault injection_fault
injections_complete i seen [] h = refl
injections_complete i seen (j ∷ js) h = ground (arith, injections_complete (i + 1) (j.id ∷ seen) js)

validate_sound : (rs : Ruleset) → validate rs ≡ none → IsValid rs
unfolding validate occ_fault
validate_sound rs h =
    ground (arith, rules_fault_sound 0 [] rs.unsupported, injections_sound 0 [] rs.occ.inject)

validate_complete : (rs : Ruleset) → IsValid rs → validate rs ≡ none
unfolding validate occ_fault
validate_complete rs v = ground (
  arith,
  rules_fault_complete 0 [] rs.unsupported v.rules,
  injections_complete 0 [] rs.occ.inject v.injections,
)

-- A ruleset passes exactly when it has a version and a supported isolation level, each of its rules has
-- an id of its own, a statement, a code and a message, the lock timeout is not negative, and each
-- injection rule has an id of its own, no negative period and no blank table.
pub validate-IsValid : (rs : Ruleset) → (validate rs ≡ none) ↔ IsValid rs
validate-IsValid rs = (validate_sound rs, validate_complete rs)
