-- ===== src/Occ/Witnesses.antt =====
-- The theorems on the parameters of a shadow statement at concrete numbers.
use dsql_emulator.Prelude.{ℕ, refl, List, [], ◌∷◌, ℤ, pos}
use dsql_emulator.Occ.Renumber.{renumber_params, collect, has, sort, insert, place}
use dsql_emulator.Occ.Positions.{Renumbers, renumber_params-Renumbers}

-- A shadow that refers to $3, $1 and $3 again.
abbrev refs : List ℤ
refs = pos 3 ∷ pos 1 ∷ pos 3 ∷ []

abbrev result : List ℤ × List ℕ
result = (pos 1 ∷ pos 3 ∷ [], 2 ∷ 1 ∷ 2 ∷ [])

renumber_params-Renumbers_example : Renumbers refs result
unfolding renumber_params collect has sort insert place
renumber_params-Renumbers_example = renumber_params-Renumbers refs result refl
