-- ===== src/Prelude/Decimal.antt =====
-- Numbers in decimal digits, as `std::format` prints them.
use Prim.Native.Nat.{ℕ, zero, suc, ◌+◌, ◌/◌, ◌%◌}
use mathlib.Core.List.{[], ◌∷◌}
use axcomp.Prelude.Tests.{Text, ltb, if◌then◌else◌}

-- A number in decimal digits, before `s`; `f` above the number of digits is enough.
unfoldable pub decimal_on : ℕ → ℕ → Text → Text
decimal_on zero n s = s
decimal_on (suc f) n s =
    let more = decimal_on f (n / 10) ((48 + n % 10) ∷ s) in if ltb n 10 then (48 + n) ∷ s else more

abbrev pub decimal : ℕ → Text
decimal n = decimal_on (suc n) n []
