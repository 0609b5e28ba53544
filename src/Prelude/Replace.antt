-- ===== src/Prelude/Replace.antt =====
-- `strings.Contains` and `strings.ReplaceAll` of Go, for a text that is looked for and is not empty.
use Prim.Native.Nat.{ℕ, zero, suc, ◌-◌}
use mathlib.Core.Path.{◌≡◌, refl}
use native.Mathlib.Omega.{arith}
use mathlib.Core.Bool.{Bool, true, false, ◌&&◌, ◌||◌}
use mathlib.Core.List.{[], ◌∷◌, ◌++◌}
use dsql_emulator.Prelude.Tests.{◌==◌}
use dsql_emulator.Prelude.Lists.{length}
use dsql_emulator.Prelude.Bytes.{Text}

unfoldable pub starts_with : Text → Text → Bool
starts_with [] s = true
starts_with (p ∷ ps) [] = false
starts_with (p ∷ ps) (c ∷ s) = p == c && starts_with ps s

unfoldable pub has_text : Text → Text → Bool
unfolding starts_with
has_text p [] = false
has_text p (c ∷ s) = starts_with p (c ∷ s) || has_text p s

-- The number says how many bytes of an occurrence are still to be left out.
replace_from : ℕ → Text → Text → Text → Text
replace_from skip p v [] = []
replace_from (suc skip) p v (c ∷ s) = replace_from skip p v s
replace_from zero p v (c ∷ s) = elim (starts_with p (c ∷ s)) [
  | true ↦ v ++ replace_from (length p - 1) p v s
  | false ↦ c ∷ replace_from 0 p v s
]

unfoldable pub replace_all : Text → Text → Text → Text
unfolding replace_from starts_with
replace_all p v s = replace_from 0 p v s

-- A text without the one that is looked for is left as it is.
pub replace_all_absent : (p v s : Text) → has_text p s ≡ false → replace_all p v s ≡ s
unfolding replace_all has_text
replace_all_absent p v [] h = refl
replace_all_absent p v (c ∷ s) h = ground (arith, replace_all_absent p v s)
