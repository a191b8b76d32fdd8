-- ===== src/Parser/Literals.antt =====
-- What the numbers of a text are parsed to: `parse_integer` of src/compiler/parser.cc.
use axcomp.Prelude.{
  ℕ, zero, suc, ◌+◌, ◌*◌, ◌/◌, ◌%◌, ◌≤◌, ◌<◌, ◌≡◌, refl, arith, Bool, true, false, [], ◌∷◌, Text,
  ltb, leb, decimal, decimal_on, if◌then◌else◌, Bool-cases, inl, inr, sym, append-nil, ◌∙◌, ◌++◌,
  codes,
}
use axcomp.Error.{ok}
use axcomp.Token.{Token, spelled, hexinteger, token_text}
use axcomp.Token
use axcomp.Lexer.Tokenize.{get_token, peek_token, push_token}
use axcomp.Ast.Expr.{integer}
use axcomp.Parser.State.{Library, State, next, peek}
use axcomp.Parser.Basic.{digit_value, digits_value, strtol, long_max, parse_integer}
use axcomp.Printer.Expr.{hex_digit, hexadecimal_on, hexadecimal, integer_text}

digit_value-decimal : (d : ℕ) → d < 10 → digit_value (48 + d) ≡ d
digit_value-decimal d h = ground arith

digit_value-hex_digit : (d : ℕ) → d < 16 → digit_value (hex_digit d) ≡ d
digit_value-hex_digit d h = ground arith

digits_value-cons :
    (radix n c d m : ℕ) (s : Text)
    → digit_value c ≡ d
    → d < radix
    → n * radix + d ≡ m
    → digits_value radix n (c ∷ s) ≡ digits_value radix m s
unfolding digits_value
digits_value-cons radix n c d m s e h whole =
    let small : ltb d radix ≡ true = ground arith in rw e (rw (small, whole) refl)

-- The digits of a number are read as the number.
digits_value-decimal_on :
    (f n : ℕ) (s : Text) → n < f → digits_value 10 0 (decimal_on f n s) ≡ digits_value 10 n s
unfolding decimal_on
digits_value-decimal_on zero n s h = elim h [ ]
digits_value-decimal_on (suc f) n s h = elim (Bool-cases (ltb n 10)) [
  | inl small ↦
      let bound : n < 10 = ground arith in
      rw small
        (digits_value-cons 10 0 (48 + n) n n s (digit_value-decimal n bound) bound (omega arith))
  | inr big ↦
      let bound : n % 10 < 10 = omega arith in
      let less : n / 10 < f = ground arith in
      let whole : n / 10 * 10 + n % 10 ≡ n = omega arith in
      rw big (
        digits_value-decimal_on f (n / 10) ((48 + n % 10) ∷ s) less
        ∙ digits_value-cons 10 (n / 10) (48 + n % 10) (n % 10) n s
            (digit_value-decimal (n % 10) bound) bound whole)
]

digits_value-hexadecimal_on :
    (f n : ℕ) (s : Text) → n < f → digits_value 16 0 (hexadecimal_on f n s) ≡ digits_value 16 n s
unfolding hexadecimal_on
digits_value-hexadecimal_on zero n s h = elim h [ ]
digits_value-hexadecimal_on (suc f) n s h = elim (Bool-cases (ltb n 16)) [
  | inl small ↦
      let bound : n < 16 = ground arith in
      rw small (
        digits_value-cons 16 0 (hex_digit n) n n s (digit_value-hex_digit n bound) bound
          (omega arith))
  | inr big ↦
      let bound : n % 16 < 16 = omega arith in
      let less : n / 16 < f = ground arith in
      let whole : n / 16 * 16 + n % 16 ≡ n = omega arith in
      rw big (
        digits_value-hexadecimal_on f (n / 16) (hex_digit (n % 16) ∷ s) less
        ∙ digits_value-cons 16 (n / 16) (hex_digit (n % 16)) (n % 16) n s
            (digit_value-hex_digit (n % 16) bound) bound whole)
]

-- The spelling of the token that the lexer makes of a number as it is printed.
abbrev pub spelling : ℕ → Bool → Text
spelling n hex = if hex then b'0' ∷ hexadecimal n else decimal n

spelling-value : (n : ℕ) (hex : Bool) → digits_value (if hex then 16 else 10) 0 (spelling n hex) ≡ n
unfolding digits_value
spelling-value n true =
    digits_value-cons 16 0 b'0' 0 0 (hexadecimal n) refl (omega arith) refl
    ∙ digits_value-hexadecimal_on (suc n) n [] (omega arith)
spelling-value n false = digits_value-decimal_on (suc n) n [] (omega arith)

strtol-spelling :
    (n : ℕ) (hex : Bool) → n ≤ long_max → strtol (if hex then 16 else 10) (spelling n hex) ≡ n
unfolding strtol
strtol-spelling n hex h =
    let fits : leb n long_max ≡ true = ground arith in rw (spelling-value n hex) (rw fits refl)

strtol-too_large :
    (n : ℕ) (hex : Bool)
    → long_max < n
    → strtol (if hex then 16 else 10) (spelling n hex) ≡ long_max
unfolding strtol
strtol-too_large n hex h =
    let large : leb n long_max ≡ false = ground arith in rw (spelling-value n hex) (rw large refl)

-- The token of a number.
abbrev pub number_token : ℕ → Bool → Token
number_token n hex = spelled (if hex then hexinteger else Token.integer) (spelling n hex)

module _ (lib : Library) where
  -- A number of at most `LONG_MAX`, printed by `visit(ASTInteger)` in decimal or in hexadecimal digits, is
  -- the token's spelling with an `H` behind hexadecimal digits, and `parse_integer` reads the token as
  -- the number that was printed.
  pub parse_integer-integer_text :
      (n : ℕ) (hex : Bool) (s : State)
      → n ≤ long_max
      → (integer_text n hex ≡ spelling n hex ++ (if hex then codes "H" else []))
        × (parse_integer lib (record s { lexer = push_token (number_token n hex) s.lexer })
            ≡ ok (integer n hex, s))
  unfolding parse_integer peek next peek_token get_token push_token Token.ordinal
  parse_integer-integer_text n true s h = (refl, rw (strtol-spelling n true h) refl)
  parse_integer-integer_text n false s h =
      (sym (append-nil (decimal n)), rw (strtol-spelling n false h) refl)

  -- The token of a number above `LONG_MAX`, in decimal or in hexadecimal digits, is taken and read as the number
  -- `LONG_MAX`, without an error.
  pub parse_integer-too_large :
      (n : ℕ) (hex : Bool) (s : State)
      → long_max < n
      → parse_integer lib (record s { lexer = push_token (number_token n hex) s.lexer })
        ≡ ok (integer long_max hex, s)
  unfolding parse_integer peek next peek_token get_token push_token Token.ordinal
  parse_integer-too_large n true s h = rw (strtol-too_large n true h) refl
  parse_integer-too_large n false s h = rw (strtol-too_large n false h) refl
