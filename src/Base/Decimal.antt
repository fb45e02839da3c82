-- ===== src/Base/Decimal.antt =====
-- `%d` and `strconv.FormatUint(n, 10)`: a number in decimal.
use Prim.Native.Nat.{ℕ, zero, suc, ◌+◌, ◌/◌, ◌%◌}
use mathlib.Core.List.{[], ◌∷◌}
use kubedns_shepherd.Base.Tests.{ltb, if◌then◌else◌}
use kubedns_shepherd.Base.Strings.{Text}

-- The digits are written from the last one on; the fuel is above the number, which each round
-- divides by ten.
unfoldable pub decimal_from : ℕ → ℕ → Text → Text
decimal_from zero n digits = digits
decimal_from (suc fuel) n digits =
    let more = decimal_from fuel (n / 10) ((b'0' + n % 10) ∷ digits) in
    if ltb n 10 then (b'0' + n) ∷ digits else more

unfoldable pub decimal : ℕ → Text
unfolding decimal_from
decimal n = decimal_from (suc n) n []
