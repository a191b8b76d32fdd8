-- ===== src/Lexer/Ends/Token.antt =====
-- Whole tokens: src/compiler/lexer.cc, `get_token` and `peek_token`.
use axcomp.Prelude.{
  ℕ, zero, suc, ◌+◌, ◌%◌, ◌≤◌, ◌<◌, ◌≡◌, ◌≢◌, refl, ap, sym, arith, Bool-cases, inl, inr, ◌&&◌,
  ◌||◌, ◌==◌, List, [], ◌∷◌, Option, some, none, Text,
}
use axcomp.Error.{
  Result, out_of_fuel, Ends, returns, throws, Ends-if, Ends-bind, Ends-mono, Ends-ne-out_of_fuel,
}
use axcomp.Token.{Token, TokenType, bare}
use axcomp.Token
use axcomp.Lexer.Unicode.{eof, Unicode, IsUnicode, is_digit, is_emoji}
use axcomp.Lexer.Tables.{single_tokens, find_single}
use axcomp.Lexer.State.{Lexer, get, peek, available, weight, weight-le, available-next_token}
use axcomp.Lexer.Tokenize.{
  two_char, unknown, scan_other, single_or, scan_char, directives, scan_token, fuel, pop_or,
  get_token, show_or, peek_token, push_token,
}
use axcomp.Lexer.Ends.Skip.{Reads, Costs, cost, get_char-Reads, get_char-Costs}
use axcomp.Lexer.Ends.Scan.{scan_digit-Reads, scan_ident-Reads, scan_string-Reads, peeked-lt}
use axcomp.Lexer.Ends.Directive.{scan_directive-Leaves}

two_char-Reads :
    (f next : ℕ) (long : TokenType) (long_text : Text) (short : TokenType) (short_text : Text)
    (lx : Lexer)
    → available lx < f
    → Reads (available lx) (two_char f next long long_text short short_text lx)
unfolding two_char
two_char-Reads f next long long_text short short_text lx h =
    Ends-if (peek lx == next) (λ _. Ends-bind (get_char-Reads f lx h) λ r le. returns le)
      (λ _. returns (omega arith))

unknown-Reads : (lx : Lexer) (o : Option Text) → Reads (available lx) (unknown lx o)
unknown-Reads lx none = throws
unknown-Reads lx (some s) = throws

single_or-Reads :
    (o : Option Token) {r : Result (Token × Lexer)} (lx : Lexer)
    → Reads (available lx) r
    → Reads (available lx) (single_or o r lx)
single_or-Reads none lx h = h
single_or-Reads (some t) lx h = returns (omega arith)

module _ (u : Unicode) (lib : IsUnicode u) where
  scan_other-Reads :
      (f c : ℕ) (lx : Lexer) → available lx + 1 < f → Reads (available lx) (scan_other u f c lx)
  unfolding scan_other
  scan_other-Reads f c lx h =
      let enough : available lx < f = omega arith in
      Ends-if (c == b':') (λ _. two_char-Reads f _ _ _ _ _ lx enough)
        λ _.
          Ends-if (c == b'<') (λ _. two_char-Reads f _ _ _ _ _ lx enough)
            λ _.
              Ends-if (c == b'>') (λ _. two_char-Reads f _ _ _ _ _ lx enough)
                λ _.
                  Ends-if (c == b'.') (λ _. two_char-Reads f _ _ _ _ _ lx enough)
                    λ _.
                      Ends-if (c == b'\'' || c == b'"') (λ _. scan_string-Reads u lib f c lx h)
                        λ _.
                          Ends-if (is_digit c) (λ _. scan_digit-Reads f c lx enough)
                            λ _.
                              Ends-if (u.is_alnum c || is_emoji c)
                                (λ _. scan_ident-Reads u lib f c lx enough)
                                (λ _. unknown-Reads lx (u.to_multibyte c))

  -- A token leaves what is left behind it; the end of the text counts nothing.
  abbrev pub Takes : ℕ → Result (Token × Lexer) → Type 0
  Takes n r = Ends (λ p. available p.1 + weight p.0 ≤ n) r

  weight-eof : weight (bare Token.eof) ≡ 0
  unfolding Token.ordinal
  weight-eof = refl

  scan_char-Takes :
      (f c : ℕ) (lx : Lexer)
      → available lx + 1 < f
      → Takes (available lx + cost c) (scan_char u f c lx)
  unfolding scan_char find_single
  scan_char-Takes f c lx h = elim (Bool-cases (c == eof)) [
    | inl last ↦ let same : c ≡ eof = ground arith in rw same at_end
    | inr more ↦
        Ends-mono
          (single_or-Reads (find_single (c % 256) single_tokens) lx (scan_other-Reads f c lx h))
          λ r k. let one = weight-le r.0 in rw more (omega arith)
  ]
    where
      at_end :
          Takes
            (available lx + cost eof)
            (single_or (find_single (eof % 256) single_tokens) (scan_other u f eof lx) lx)
      at_end = returns (omega (arith, weight-eof))

  directives-Costs :
      (f c : ℕ) (lx : Lexer)
      → available lx + 1 < f
      → Costs (available lx + cost c) (directives u f c lx)
  unfolding directives
  directives-Costs zero c lx h = elim h [ ]
  directives-Costs (suc f) c lx h =
      Ends-if (c == b'<' && peek lx == b'*')
        (λ star.
          let less : available (get lx).1 < available lx =
            peeked-lt (λ d. d == b'*') lx refl (ground arith) in
          Ends-bind {P = λ r. available r.1 + cost r.0 ≤ available (get lx).1}
            (Ends-bind (scan_directive-Leaves u lib f lx (omega arith))
              λ lx1 le1. Ends-mono (get_char-Costs f lx1 (omega arith)) λ r k. omega arith)
            λ r le2. Ends-mono (directives-Costs f r.0 r.1 (omega arith)) λ q k. omega arith)
        (λ _. returns {a = (c, lx)} (omega arith))

  scan_token-Takes :
      (f : ℕ) (lx : Lexer) → available lx + 1 < f → Takes (available lx) (scan_token u f lx)
  unfolding scan_token
  scan_token-Takes f lx h = Ends-bind (get_char-Costs f lx (omega arith)) λ r1 le1.
      Ends-bind (directives-Costs f r1.0 r1.1 (omega arith))
        λ r2 le2. Ends-mono (scan_char-Takes f r2.0 r2.1 (omega arith)) λ q k. omega arith

  pub get_token-Takes : (lx : Lexer) → Takes (available lx) (get_token u lx)
  unfolding get_token
  get_token-Takes lx = go lx.next_token refl
    where
      go :
          (ts : List Token)
          → lx.next_token ≡ ts
          → Takes (available lx) (pop_or ts (scan_token u (fuel lx) lx) lx)
      go [] e = scan_token-Takes (fuel lx) lx (omega arith)
      go (t ∷ ts) e =
          let same : record lx { next_token = t ∷ ts } ≡ lx =
            ap (λ x. record lx { next_token = x }) (sym e) in
          let less = ap available same in
          returns {a = (t, record lx { next_token = ts })}
            (omega (arith, available-next_token t ts lx))

  -- A look at the next token leaves it on the stack.
  abbrev pub Shows : ℕ → Result (Token × Lexer) → Type 0
  Shows n r = Ends (λ p. (available p.1 ≤ n) × ((ts : List Token) × (p.1.next_token ≡ p.0 ∷ ts))) r

  pub peek_token-Shows : (lx : Lexer) → Shows (available lx) (peek_token u lx)
  unfolding peek_token push_token
  peek_token-Shows lx = go lx.next_token refl
    where
      go :
          (ts : List Token)
          → lx.next_token ≡ ts
          → Ends
              (λ p.
                (available p.1 ≤ available lx) × ((us : List Token) × (p.1.next_token ≡ p.0 ∷ us)))
              (show_or ts (get_token u lx) lx)
      go [] e = Ends-bind (get_token-Takes lx) λ r le.
          returns
            (omega (arith, available-next_token r.0 r.1.next_token r.1), (r.1.next_token, refl))
      go (t ∷ ts) e = returns {a = (t, lx)} (omega arith, (ts, e))

  -- The fuel that `get_token` and `peek_token` take suffices: each call ends, with a token or with
  -- an exception, and leaves no more characters and tokens than it found.
  pub tokens-end :
      (lx : Lexer)
      → Ends (λ r. available r.1 ≤ available lx) (get_token u lx)
        × Ends (λ r. available r.1 ≤ available lx) (peek_token u lx)
        × (get_token u lx ≢ out_of_fuel)
        × (peek_token u lx ≢ out_of_fuel)
  tokens-end lx =
      let got = get_token-Takes lx in
      let shown = peek_token-Shows lx in
      (
        Ends-mono got (λ r k. omega arith),
        Ends-mono shown (λ r k. k.0),
        Ends-ne-out_of_fuel got,
        Ends-ne-out_of_fuel shown,
      )
