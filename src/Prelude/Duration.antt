-- ===== src/Prelude/Duration.antt =====
-- `time.Duration.String`, of a duration in nanoseconds that is not negative.
use Prim.Native.Nat.{ℕ, zero, suc, ◌+◌, ◌/◌, ◌%◌, ◌^◌}
use mathlib.Core.Path.{◌≡◌, refl}
use mathlib.Core.Bool.{◌&&◌}
use mathlib.Core.List.{[], ◌∷◌, ◌++◌}
use dsql_emulator.Prelude.Tests.{ltb, ◌==◌, if◌then◌else◌}
use dsql_emulator.Prelude.Lists.{is_nil}
use dsql_emulator.Prelude.Bytes.{Text, lit}
use dsql_emulator.Prelude.Decimal.{itoa}

-- The last `places` digits of `v` behind a point, without the zeros that they end in.
fraction : ℕ → ℕ → Text → Text
fraction zero v out = if is_nil out then [] else b'.' ∷ out
fraction (suc places) v out =
    fraction places (v / 10) (if is_nil out && (v % 10 == 0) then out else (b'0' + v % 10) ∷ out)

in_unit : ℕ → ℕ → Text → Text
unfolding fraction
in_unit v places unit = itoa (v / 10 ^ places) ++ (fraction places v [] ++ unit)

clock : ℕ → Text
clock seconds =
    let minutes = seconds / 60 in
    let hours = minutes / 60 in
    if minutes == 0
    then []
    else (if hours == 0 then [] else itoa hours ++ lit "h") ++ (itoa (minutes % 60) ++ lit "m")

unfoldable pub show_duration : ℕ → Text
unfolding in_unit clock
show_duration d =
    if d == 0
    then lit "0s"
    else if ltb d 1000
    then in_unit d 0 (lit "ns")
    else if ltb d 1000000
    then in_unit d 3 (lit "µs")
    else if ltb d 1000000000
    then in_unit d 6 (lit "ms")
    else clock (d / 1000000000) ++ (itoa (d / 1000000000 % 60) ++ (fraction 9 d [] ++ lit "s"))

half_hour : show_duration 1800000000000 ≡ lit "30m0s"
unfolding show_duration itoa lit
half_hour = refl

mixed : show_duration 3723500000000 ≡ lit "1h2m3.5s"
unfolding show_duration itoa lit
mixed = refl
