-- ===== src/Base/Format.antt =====
-- The conversions of `sprintf` that the programs use: `%d` of a 32-bit `int` given by its bits.
use Prim.Native.Nat.{ℕ, zero, suc, ◌+◌, ◌-◌, ◌/◌, ◌%◌, ◌^◌}
use mathlib.Core.List.{[], ◌∷◌, ◌++◌}
use cse.Base.Tests.{ltb, if◌then◌else◌}
use cse.Base.Strings.{Bytes}

-- At most `f` digits; ten are enough below 2 ^ 32.
unfoldable pub digits_fuel : ℕ → ℕ → Bytes
digits_fuel zero n = []
digits_fuel (suc f) n =
    let more = digits_fuel f (n / 10) ++ ((n % 10 + 48) ∷ []) in
    if ltb n 10 then (n + 48) ∷ [] else more

unfoldable pub decimal : ℕ → Bytes
unfolding digits_fuel
decimal n = if ltb n (2 ^ 31) then digits_fuel 10 n else b'-' ∷ digits_fuel 10 (2 ^ 32 - n)

abbrev pub blank : Bytes
blank = b' ' ∷ []
