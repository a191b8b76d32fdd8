-- ===== src/Lexer/Ends/Scan.antt =====
-- Numbers, identifiers, strings and directives: src/compiler/lexer.cc, `scan_digit`, `scan_ident`,
-- `scan_string` and `scan_directive`.
use axcomp.Prelude.{
  ℕ, zero, suc, ◌+◌, ◌%◌, ◌≤◌, ◌<◌, ◌≡◌, refl, arith, Bool, true, false, not, ◌&&◌, ◌||◌, [], ◌∷◌,
  ◌++◌, ◌==◌, Option, some, none, ltb, length, Text, Bool-cases, inl, inr, ==_iff,
}
use axcomp.Error.{Result, Ends, returns, throws, Ends-if, Ends-bind}
use axcomp.Lexer.Unicode.{Unicode, IsUnicode, eof, is_digit, is_xdigit, is_emoji}
use axcomp.Lexer.State.{
  Lexer, get, peek, available, available-get-le, available-get-lt, available-push_char, peek-get,
}
use axcomp.Lexer.Scan.{
  add_char, appended, append, scan_while, take_if, scan_exponent, scan_fraction, scan_suffix,
  scan_digit, is_ident_char, scan_ident, max_str_literal, string_loop, scan_string,
}
use axcomp.Lexer.Directive.{is_name_char}
use axcomp.Lexer.Ends.Skip.{Reads, Reads-le, get-lt}

abbrev pub Adds : (Text → ℕ → Result Text) → Type 0
Adds add = (s : Text) (c : ℕ) → Ends (λ _. Unit {0}) (add s c)

add_char-Adds : Adds add_char
add_char-Adds s c = returns tt

pub append-Adds : (u : Unicode) → Adds (append u)
append-Adds u s c = go (u.append c)
  where
    go : (o : Option Text) → Ends (λ _. Unit {0}) (appended s o)
    go none = throws
    go (some b) = returns tt

-- A class of characters without the end.
pub peeked-lt :
    (accepts : ℕ → Bool) (lx : Lexer)
    → accepts eof ≡ false
    → accepts (peek lx) ≡ true
    → available (get lx).1 < available lx
peeked-lt accepts lx stops h = available-get-lt lx λ e. cc (peek-get lx)

pub scan_while-Reads :
    (accepts : ℕ → Bool) (add : Text → ℕ → Result Text)
    → accepts eof ≡ false
    → Adds add
    → (f : ℕ) (s : Text) (lx : Lexer) → available lx < f
    → Reads (available lx) (scan_while accepts add f s lx)
unfolding scan_while
scan_while-Reads accepts add stops adds zero s lx h = elim h [ ]
scan_while-Reads accepts add stops adds (suc f) s lx h =
    Ends-if (accepts (peek lx))
      (λ taken. Ends-bind (adds s (peek lx)) λ t _.
        let less : available (get lx).1 < available lx = peeked-lt accepts lx stops taken in
        Reads-le _ _ (omega arith)
          (scan_while-Reads accepts add stops adds f t (get lx).1 (omega arith)))
      (λ _. returns (omega arith))

take_if-le : (b : Bool) (s : Text) (lx : Lexer) → available (take_if b s lx).1 ≤ available lx
take_if-le true s lx = available-get-le lx
take_if-le false s lx = omega arith

scan_exponent-Reads :
    (f : ℕ) (s : Text) (lx : Lexer) → available lx < f → Reads (available lx) (scan_exponent f s lx)
unfolding scan_exponent
scan_exponent-Reads f s lx h =
    let r1 : Text × Lexer = take_if (peek lx == b'e' || peek lx == b'E' || peek lx == b'D') s lx in
    let r2 : Text × Lexer = take_if (peek r1.1 == b'+' || peek r1.1 == b'-') r1.0 r1.1 in
    let le1 : available r1.1 ≤ available lx = take_if-le _ s lx in
    let le2 : available r2.1 ≤ available r1.1 = take_if-le _ r1.0 r1.1 in
    Ends-bind (scan_while-Reads is_digit add_char refl add_char-Adds f r2.0 r2.1 (omega arith))
      λ r le. returns (omega arith)

-- Behind a point that was read, the point may be put back.
scan_fraction-Reads :
    (f : ℕ) (s : Text) (lx : Lexer)
    → available (get lx).1 < f
    → Reads (available (get lx).1 + 1) (scan_fraction f s (get lx).1)
unfolding scan_fraction
scan_fraction-Reads f s lx h =
    let lx1 : Lexer = (get lx).1 in
    let back = available-push_char lx in
    Ends-if (not (is_digit (peek lx1))) (λ _. returns (omega arith))
      λ _.
        Ends-bind
          (scan_while-Reads is_digit add_char refl add_char-Adds f (s ++ b'.' ∷ []) lx1
            (omega arith))
          λ r le. Reads-le _ _ (omega arith) (scan_exponent-Reads f r.0 r.1 (omega arith))

scan_suffix-Reads :
    (f : ℕ) (s : Text) (lx : Lexer) → available lx < f → Reads (available lx) (scan_suffix f s lx)
unfolding scan_suffix
scan_suffix-Reads f s lx h =
    let le : available (get lx).1 ≤ available lx = available-get-le lx in
    Ends-if (peek lx == b'H') (λ _. returns le)
      λ _.
        Ends-if (peek lx == b'.')
          (λ point.
            let less = peeked-lt (λ c. c == b'.') lx refl point in
            Reads-le _ _ (omega arith) (scan_fraction-Reads f s lx (omega arith)))
          λ _. Ends-if (peek lx == b'X') (λ _. returns le) (λ _. returns (omega arith))

pub scan_digit-Reads :
    (f c : ℕ) (lx : Lexer) → available lx < f → Reads (available lx) (scan_digit f c lx)
unfolding scan_digit
scan_digit-Reads f c lx h =
    Ends-bind (scan_while-Reads is_xdigit add_char refl add_char-Adds f ((c % 256) ∷ []) lx h)
      λ r le. Reads-le _ _ le (scan_suffix-Reads f r.0 r.1 (omega arith))

module _ (u : Unicode) (lib : IsUnicode u) where
  ident_char-eof : is_ident_char u eof ≡ false
  unfolding is_emoji
  ident_char-eof = rw lib.is_alnum-eof refl

  pub name_char-eof : is_name_char u eof ≡ false
  name_char-eof = rw lib.is_alnum-eof refl

  pub scan_ident-Reads :
      (f c : ℕ) (lx : Lexer) → available lx < f → Reads (available lx) (scan_ident u f c lx)
  unfolding scan_ident
  scan_ident-Reads f c lx h = Ends-bind (append-Adds u [] c) λ s _.
      Ends-bind
        (scan_while-Reads (is_ident_char u) (append u) ident_char-eof (append-Adds u) f s lx h)
        λ r le. returns le

  -- The end of the text is no code point, so the loop stops there by an exception.
  string_loop_at_end :
      (start f : ℕ) (s : Text) (lx : Lexer)
      → 0 < f
      → Reads (available lx) (string_loop u start f s eof lx)
  unfolding string_loop
  string_loop_at_end start zero s lx h = elim h [ ]
  string_loop_at_end start (suc f) s lx h =
      Ends-if (eof == start) (λ _. returns (omega arith)) λ _. rw lib.append-eof throws

  string_loop-Reads :
      (start f : ℕ) (s : Text) (c : ℕ) (lx : Lexer)
      → available lx + 1 < f
      → Reads (available lx) (string_loop u start f s c lx)
  unfolding string_loop
  string_loop-Reads start zero s c lx h = elim h [ ]
  string_loop-Reads start (suc f) s c lx h =
      Ends-if (c == start) (λ _. returns (omega arith))
        λ _.
          Ends-if (c == b'\n') (λ _. throws)
            λ _. Ends-bind (append-Adds u s c) λ t _.
              Ends-if (ltb max_str_literal (length t)) (λ _. throws)
                λ _.
                  let le : available (get lx).1 ≤ available lx = available-get-le lx in
                  elim (Bool-cases ((get lx).0 == eof)) [
                    | inl e ↦
                        let here : (get lx).0 ≡ eof = (==_iff (get lx).0 eof).0 e in
                        rw here
                          (Reads-le _ _ le (string_loop_at_end start f t (get lx).1 (omega arith)))
                    | inr e ↦
                        let less : available (get lx).1 < available lx = get-lt lx e in
                        Reads-le _ _ le
                          (string_loop-Reads start f t (get lx).0 (get lx).1 (omega arith))
                  ]

  pub scan_string-Reads :
      (f start : ℕ) (lx : Lexer)
      → available lx + 1 < f
      → Reads (available lx) (scan_string u f start lx)
  unfolding scan_string
  scan_string-Reads f start lx h =
      let lx1 : Lexer = (get lx).1 in
      let lx2 : Lexer = (get lx1).1 in
      let lx3 : Lexer = (get lx2).1 in
      let c : ℕ = (get lx).0 in
      let final : ℕ = (get lx1).0 in
      let le1 : available lx1 ≤ available lx = available-get-le lx in
      let le2 : available lx2 ≤ available lx1 = available-get-le lx1 in
      let le3 : available lx3 ≤ available lx2 = available-get-le lx2 in
      Ends-bind (append-Adds u [] start) λ s0 _.
        Ends-if (c == start) (λ _. returns le1)
          λ _. Ends-bind (append-Adds u s0 c) λ s1 _.
            Ends-if (final == b'\'' && start == b'\'') (λ _. returns (omega arith))
              λ _.
                Ends-if (final == start) (λ _. returns (omega arith))
                  λ _. Ends-bind (append-Adds u s1 final) λ s2 _.
                    Reads-le _ _ (omega arith)
                      (string_loop-Reads start f s2 (get lx2).0 lx3 (omega arith))
