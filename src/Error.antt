-- ===== src/Error.antt =====
-- Locations, exceptions and the outcome of a call: src/compiler/location.hh and
-- src/compiler/error.hh.
use axcomp.Prelude.{ℕ, ◌≡◌, refl, ◌≢◌, Bool, true, false, Text, if◌then◌else◌, subst}

pub record Location : Type 0 where
  pub line_no : ℕ
  pub char_pos : ℕ

-- What ends a call early. The first four are the classes below `AXException` with their message;
-- `invalid_code_point` and `runtime_error` are exceptions that the compiler does not turn into one
-- of these; the others are faults: `null_pointer` follows a null pointer or an index out of range, and
-- the last two are divisions of numbers of type `long` that have no quotient.
pub data Error : Type 0 where
  lexical parse type_error code_gen : Location → Text → Error
  invalid_code_point : Error
  null_pointer : Error
  runtime_error : Error
  division_by_zero division_overflow : Error

-- `out_of_fuel` has no counterpart in the program: it marks a bound on a loop that was too small.
pub data Result {ℓ} (A : Type ℓ) : Type ℓ where
  ok : A → Result A
  err : Error → Result A
  out_of_fuel : Result A

infixl 5 ◌>>=◌
abbrev pub ◌>>=◌ {ℓ κ} : {A : Type ℓ} {B : Type κ} → Result A → (A → Result B) → Result B
ok a >>= f = f a
err e >>= f = err e
out_of_fuel >>= f = out_of_fuel

-- The call ends, by an exception or with a value of which `P` holds.
pub data Ends {ℓ κ} {A : Type ℓ} (P : A → Type κ) : Result A → Type (ℓ ⊔ κ) where
  returns : {a : A} → P a → Ends P (ok a)
  throws : {e : Error} → Ends P (err e)

module _ {ℓ κ} {A : Type ℓ} {P : A → Type κ} where
  pub Ends-ne-out_of_fuel : {r : Result A} → Ends P r → r ≢ out_of_fuel
  Ends-ne-out_of_fuel (returns h) = cc
  Ends-ne-out_of_fuel throws = cc

  pub Ends-ok : {r : Result A} {a : A} → Ends P r → r ≡ ok a → P a
  Ends-ok (returns h) e = subst P (cc) h
  Ends-ok throws e = cc

  -- The rule for a conditional: each branch under its test.
  pub Ends-if :
      (b : Bool) {x y : Result A}
      → (b ≡ true → Ends P x)
      → (b ≡ false → Ends P y)
      → Ends P (if b then x else y)
  Ends-if true hx hy = hx refl
  Ends-if false hx hy = hy refl

  -- The rule for a sequence.
  pub Ends-bind {ℓ' κ'} :
      {B : Type ℓ'} {Q : B → Type κ'} {r : Result A} {f : A → Result B}
      → Ends P r
      → ((a : A) → P a → Ends Q (f a))
      → Ends Q (r >>= f)
  Ends-bind (returns {a} h) k = k a h
  Ends-bind throws k = throws

  pub Ends-mono {κ'} :
      {Q : A → Type κ'} {r : Result A} → Ends P r → ((a : A) → P a → Q a) → Ends Q r
  Ends-mono (returns {a} h) k = returns (k a h)
  Ends-mono throws k = throws
