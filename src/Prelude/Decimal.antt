-- ===== src/Prelude/Decimal.antt =====
-- `strconv.Itoa` of a number that is not negative, and the digits that it writes.
use Prim.Native.Nat.{ℕ, zero, suc, ◌+◌, ◌/◌, ◌%◌}
use mathlib.Core.Path.{◌≡◌, refl}
use mathlib.Core.List.{[], ◌∷◌, ◌++◌}
use dsql_emulator.Prelude.Tests.{ltb, if◌then◌else◌}
use dsql_emulator.Prelude.Bytes.{Text, lit}

-- One round for each digit; a number has at most as many digits as it counts, and one.
digits : ℕ → ℕ → Text
digits zero n = []
digits (suc fuel) n =
    let front = digits fuel (n / 10) in
    if ltb n 10 then (b'0' + n) ∷ [] else front ++ (b'0' + n % 10) ∷ []

unfoldable pub itoa : ℕ → Text
unfolding digits
itoa n = digits (suc n) n

itoa_test : itoa 3000 ≡ lit "3000"
unfolding itoa lit
itoa_test = refl
