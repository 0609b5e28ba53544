-- ===== src/Session/Injection.antt =====
-- Which commits the injection rules fail.
use dsql_emulator.Prelude.{
  ℕ, zero, Option, none, some, get_elem?, take, suc, ◌+◌, ◌%◌, ◌≤◌, ◌<◌, ◌≡◌, refl, contains, ℤ,
  pos, negsuc, is_positive, pos_part, is_nil, if◌then◌else◌, not, Bool, true, false, ◌&&◌, ◌||◌,
  List, [], ◌∷◌, ◌==◌, arith, Text,
}
use dsql_emulator.Rules.{OccInjection}
use dsql_emulator.Session.Conflict.{touches, matches, period, bump, inject}

-- A rule is for every commit, where it names no relation, and otherwise for those of the transactions that
-- wrote one of its relations.
unfoldable pub any_of : List Text → List Text → Bool
any_of touched [] = false
any_of touched (t ∷ ts) = contains touched t || any_of touched ts

abbrev pub is_for : List Text → List Text → Bool
unfolding any_of
is_for touched [] = true
is_for touched (t ∷ ts) = any_of touched (t ∷ ts)

-- The `n`-th of the commits that a rule is for: a rule for every commit fails each, and one for every
-- `k`-th those whose number `k` divides.
abbrev pub is_nth : ℤ → ℕ → Bool
is_nth (pos zero) n = true
is_nth (pos (suc k)) n = n % suc k == 0
is_nth (negsuc k) n = true

-- A rule fails the commit that brings its count of matches to a multiple of its period.
unfoldable pub due : List Text → OccInjection → ℕ → Bool
unfolding any_of
due touched inj matched = is_for touched inj.tables && is_nth inj.every (matched + 1)

touches-any_of : (touched ts : List Text) → touches touched ts ≡ any_of touched ts
unfolding touches any_of
touches-any_of touched [] = refl
touches-any_of touched (t ∷ ts) = ground (arith, touches-any_of touched ts)

matches-is_for :
    (touched : List Text) (inj : OccInjection) → matches touched inj ≡ is_for touched inj.tables
unfolding matches is_for any_of
matches-is_for touched inj = named inj.tables
  where
    named : (ts : List Text) → (is_nil ts || touches touched ts) ≡ is_for touched ts
    named [] = refl
    named (t ∷ ts) = touches-any_of touched (t ∷ ts)

period-is_nth :
    (every : ℤ) (n : ℕ)
    → (n % (if is_positive every then pos_part every else 1) == 0) ≡ is_nth every n
period-is_nth (pos zero) n = ground arith
period-is_nth (pos (suc k)) n = ground arith
period-is_nth (negsuc k) n = ground arith

-- Some rule, of those that have the numbers from `i` on, fails the commit.
unfoldable pub any_due : List Text → ℕ → List OccInjection → (ℕ → ℕ) → Bool
any_due touched i [] counts = false
any_due touched i (inj ∷ rest) counts =
    due touched inj (counts i) || any_due touched (i + 1) rest counts

bump_self : (counts : ℕ → ℕ) (i : ℕ) → bump counts i i ≡ counts i + 1
unfolding bump
bump_self counts i = ground arith

bump_above : (counts : ℕ → ℕ) (i j : ℕ) → i < j → bump counts i j ≡ counts j
unfolding bump
bump_above counts i j h = ground arith

any_due_agree :
    (touched : List Text) (i : ℕ) (rules : List OccInjection) (c d : ℕ → ℕ)
    → ((j : ℕ) → i ≤ j → c j ≡ d j)
    → any_due touched i rules c ≡ any_due touched i rules d
unfolding any_due
any_due_agree touched i [] c d h = refl
any_due_agree touched i (inj ∷ rest) c d h =
    ground (arith, h i, any_due_agree touched (i + 1) rest c d (λ j p. h j (omega arith)))

inject_fails :
    (touched : List Text) (i : ℕ) (rules : List OccInjection) (counts : ℕ → ℕ)
    → (inject touched i rules counts).1 ≡ any_due touched i rules counts
unfolding inject any_due due period
inject_fails touched i [] counts = refl
inject_fails touched i (inj ∷ rest) counts = ground (
  arith,
  bump_self counts i,
  matches-is_for touched inj,
  period-is_nth inj.every (counts i + 1),
  inject_fails touched (i + 1) rest counts,
  inject_fails touched (i + 1) rest (bump counts i),
  any_due_agree touched (i + 1) rest (bump counts i) counts
      (λ j p. bump_above counts i j (omega arith)),
)

abbrev pub is_for_rule : List Text → Option OccInjection → Bool
is_for_rule touched none = false
is_for_rule touched (some inj) = is_for touched inj.tables

-- A rule counts the commit where it is for it and no rule before it fails the commit.
unfoldable pub counts_it : List Text → ℕ → List OccInjection → (ℕ → ℕ) → ℕ → Bool
counts_it touched i rules counts k =
    is_for_rule touched (get_elem? rules k) && not (any_due touched i (take k rules) counts)

inject_below :
    (touched : List Text) (i : ℕ) (rules : List OccInjection) (counts : ℕ → ℕ) (j : ℕ)
    → j < i
    → (inject touched i rules counts).0 j ≡ counts j
unfolding inject bump
inject_below touched i [] counts j h = refl
inject_below touched i (inj ∷ rest) counts j h = ground (
  arith,
  inject_below touched (i + 1) rest counts j,
  inject_below touched (i + 1) rest (bump counts i) j,
)

inject_counts :
    (touched : List Text) (i : ℕ) (rules : List OccInjection) (counts : ℕ → ℕ) (k : ℕ)
    → (inject touched i rules counts).0 (i + k)
      ≡ (if counts_it touched i rules counts k then counts (i + k) + 1 else counts (i + k))
unfolding inject counts_it any_due due period
inject_counts touched i [] counts k = refl
inject_counts touched i (inj ∷ rest) counts zero = ground (
  arith,
  bump_self counts i,
  matches-is_for touched inj,
  inject_below touched (i + 1) rest counts i,
  inject_below touched (i + 1) rest (bump counts i) i,
)
inject_counts touched i (inj ∷ rest) counts (suc k) = ground (
  arith,
  bump_self counts i,
  bump_above counts i (i + suc k),
  matches-is_for touched inj,
  period-is_nth inj.every (counts i + 1),
  place,
  inject_counts touched (i + 1) rest counts k,
  inject_counts touched (i + 1) rest (bump counts i) k,
  any_due_agree touched (i + 1) (take k rest) (bump counts i) counts
      (λ j p. bump_above counts i j (omega arith)),
)
  where
    place : (i + 1) + k ≡ i + suc k
    place = omega arith

-- The injection rules of the list fail a commit exactly when one of them is for it and the commit is, with
-- those that the rule counted before, one that its period divides; and the count of the rule at place `k`
-- goes up by one exactly when the rule is for the commit and no rule before it fails the commit.
pub inject-any_due :
    (touched : List Text) (i : ℕ) (rules : List OccInjection) (counts : ℕ → ℕ) (k : ℕ)
    → ((inject touched i rules counts).1 ≡ any_due touched i rules counts)
      × ((inject touched i rules counts).0 (i + k)
          ≡ (if counts_it touched i rules counts k then counts (i + k) + 1 else counts (i + k)))
inject-any_due touched i rules counts k =
    (inject_fails touched i rules counts, inject_counts touched i rules counts k)
