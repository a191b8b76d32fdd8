-- ===== src/Inspector/Words.antt =====
-- The arithmetic of `Int`, the type `long` of src/compiler/ax.hh: words of 64 bits that stand for
-- signed numbers by the two's complement. An overflow of `+`, `-` and `*`, which C++ leaves open, wraps around.
use axcomp.Prelude.{
  ℕ, ◌+◌, ◌-◌, ◌*◌, ◌/◌, ◌%◌, ◌^◌, Bool, true, false, not, ◌&&◌, ◌==◌, if◌then◌else◌, ltb,
}
use axcomp.Error.{Result, ok, err, division_by_zero, division_overflow}

abbrev pub modulus : ℕ
modulus = 2 ^ 64

abbrev pub negative : ℕ → Bool
negative a = not (ltb a (2 ^ 63))

abbrev pub negate : ℕ → ℕ
negate a = (2 ^ 64 - a) % 2 ^ 64

abbrev pub plus : ℕ → ℕ → ℕ
plus a b = (a + b) % 2 ^ 64

abbrev pub minus : ℕ → ℕ → ℕ
minus a b = (a + (2 ^ 64 - b)) % 2 ^ 64

abbrev pub times : ℕ → ℕ → ℕ
times a b = (a * b) % 2 ^ 64

-- `/` and `%` round towards zero, by the absolute values.
abbrev pub absolute : ℕ → ℕ
absolute a = if negative a then 2 ^ 64 - a else a

abbrev pub signed : Bool → ℕ → ℕ
signed s n = if s then negate n else n

abbrev pub different : Bool → Bool → Bool
different true b = not b
different false b = b

-- A division by zero, and that of the least number by -1, have no outcome: the processor stops the
-- program.
abbrev pub divided : ℕ → ℕ → ℕ → Result ℕ
divided a b n =
    if b == 0
    then err division_by_zero
    else if a == 2 ^ 63 && b == 2 ^ 64 - 1
    then err division_overflow
    else ok n

unfoldable pub quotient : ℕ → ℕ → Result ℕ
quotient a b = divided a b (signed (different (negative a) (negative b)) (absolute a / absolute b))

unfoldable pub remainder : ℕ → ℕ → Result ℕ
remainder a b = divided a b (signed (negative a) (absolute a % absolute b))
