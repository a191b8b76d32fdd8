-- ===== src/Parser/Ends/Tokens.antt =====
-- The parser's reads of tokens: src/compiler/parser.cc.
use axcomp.Prelude.{
  ℕ, ◌+◌, ◌-◌, ◌≤◌, ◌≡◌, refl, ap, sym, arith, Bool, true, false, List, ◌∷◌, if◌then◌else◌, Text,
  codes, ◌++◌, ◌==◌,
}
use axcomp.Error.{Result, Ends, returns, throws, Ends-mono}
use axcomp.Token.{TokenType, Token, type_eq, type_name, token_text}
use axcomp.Token
use axcomp.Lexer.Unicode.{IsUnicode}
use axcomp.Lexer.State.{Lexer, available, weight, available-next_token}
use axcomp.Lexer.Tokenize.{pop_or, scan_token, fuel}
use axcomp.Lexer.Tokenize
use axcomp.Lexer.Ends.Token.{peek_token-Shows}
use axcomp.Lexer.Ends.Token as TokenEnds
use axcomp.Parser.State.{
  Library, State, Parse, run_on, ◌>>=◌, pure, throw, next, peek, get_token, is_type, with_lexer,
}
use axcomp.Parser.Ends.{Kept-refl, Kept-same, After, After-trans, Takes, Sees}

-- The type of a token that is none of the end of the text.
pub weight-type :
    (tok : Token) (t : TokenType)
    → is_type tok t ≡ true
    → type_eq t Token.eof ≡ false
    → weight tok ≡ 1
unfolding Token.ordinal
weight-type tok t e real =
    let same : (Token.ordinal tok.type == Token.ordinal t) ≡ true = e in
    let other : (Token.ordinal t == Token.ordinal Token.eof) ≡ false = real in
    let goal : (if Token.ordinal tok.type == Token.ordinal Token.eof then 0 else 1) ≡ 1 =
      ground arith in
    goal

pub weight-of :
    (tok : Token) {t : TokenType} → tok.type ≡ t → type_eq t Token.eof ≡ false → weight tok ≡ 1
weight-of tok e real = rw e (rw real refl)

module _ (lib : Library) (good : IsUnicode lib.unicode) where
  -- A read takes the token that was seen.
  pub next-Takes : (n : ℕ) → Takes n 0 (next lib)
  unfolding next
  next-Takes n s h = go (TokenEnds.get_token-Takes lib.unicode good s.lexer)
    where
      go :
          {r : Result (Token × Lexer)}
          → Ends (λ p. available p.1 + weight p.0 ≤ available s.lexer) r
          → Ends (λ p. After 0 s p.1) (with_lexer s r)
      go (returns le) = returns (record { less = omega arith; kept = Kept-refl s.symbols })
      go throws = throws

  pub next-run :
      {B : Type 0} {P : B × State → Type 0} (q : Token → Parse B) (tok : Token) (s : State)
      (ts : List Token)
      → weight tok ≡ 1
      → s.lexer.next_token ≡ tok ∷ ts
      → ((s1 : State)
          → available s1.lexer + 1 ≤ available s.lexer
          → s1.symbols ≡ s.symbols
          → Ends P (q tok s1))
      → Ends P ((next lib >>= q) s)
  unfolding next Tokenize.get_token
  next-run {P = P} q tok s ts one e rest = go s.lexer.next_token e
    where
      s1 : State
      s1 = record s { lexer = record s.lexer { next_token = ts } }

      less : available s1.lexer + 1 ≤ available s.lexer
      less =
          let whole : record s.lexer { next_token = tok ∷ ts } ≡ s.lexer =
            ap (λ x. record s.lexer { next_token = x }) (sym e) in
          let count = ap available whole in omega (arith, available-next_token tok ts s.lexer)

      go :
          (us : List Token)
          → us ≡ tok ∷ ts
          → Ends P (
              run_on
                (with_lexer s (pop_or us (scan_token lib.unicode (fuel s.lexer) s.lexer) s.lexer))
                q)
      go us same = rw same (rest s1 less refl)

  pub Sees-next :
      {B : Type 0} {q : Token → Parse B} {tok : Token} {n k : ℕ}
      → weight tok ≡ 1
      → ((a : Token) (m : ℕ) → m + 1 ≤ n → Takes m (k - 1) (q a))
      → Sees tok n k (next lib >>= q)
  Sees-next {tok = tok} {k = k} one rest s ts e le = next-run _ tok s ts one e λ s1 less same.
      Ends-mono (rest tok (available s1.lexer) (omega arith) s1 (omega arith))
        λ r more. After-trans 1 k (record { less = less; kept = Kept-same same }) more

  -- A look at the next token.
  pub Takes-peek :
      {B : Type 0} {q : Token → Parse B} {n k : ℕ}
      → ((tok : Token) → Sees tok n k (q tok))
      → Takes n k (peek lib >>= q)
  unfolding peek
  Takes-peek {q = q} {k = k} rest s le = go (peek_token-Shows lib.unicode good s.lexer)
    where
      go :
          {r : Result (Token × Lexer)}
          → Ends
              (λ p.
                (available p.1 ≤ available s.lexer)
                × ((ts : List Token) × (p.1.next_token ≡ p.0 ∷ ts)))
              r
          → Ends (λ p. After k s p.1) (run_on (with_lexer s r) q)
      go (returns {a} (less, (ts, e))) =
          let s1 : State = record s { lexer = a.1 } in
          Ends-mono (rest a.0 s1 ts e (omega arith))
            λ r more. let after = more.less in record { less = omega arith; kept = more.kept }
      go throws = throws

  pub peek-Takes : (n : ℕ) → Takes n 0 (peek lib)
  unfolding peek
  peek-Takes n s le = go (peek_token-Shows lib.unicode good s.lexer)
    where
      go :
          {r : Result (Token × Lexer)}
          → Ends
              (λ p.
                (available p.1 ≤ available s.lexer)
                × ((ts : List Token) × (p.1.next_token ≡ p.0 ∷ ts)))
              r
          → Ends (λ p. After 0 s p.1) (with_lexer s r)
      go (returns (less, seen)) =
          returns (record { less = omega arith; kept = Kept-refl s.symbols })
      go throws = throws

  -- A token of a given type.
  pub get_token-Takes :
      (n : ℕ) (t : TokenType) → type_eq t Token.eof ≡ false → Takes n 1 (get_token lib t)
  unfolding get_token next
  get_token-Takes n t real s h = go (TokenEnds.get_token-Takes lib.unicode good s.lexer)
    where
      found :
          (tok : Token) (lx : Lexer) (msg : Text) (b : Bool)
          → is_type tok t ≡ b
          → available lx + weight tok ≤ available s.lexer
          → Ends
              (λ p. After 1 s p.1)
              ((if b then pure tok else throw msg) (record s { lexer = lx }))
      found tok lx msg true e le =
          let one = weight-type tok t e real in
          returns (record { less = omega arith; kept = Kept-refl s.symbols })
      found tok lx msg false e le = throws

      go :
          {r : Result (Token × Lexer)}
          → Ends (λ p. available p.1 + weight p.0 ≤ available s.lexer) r
          → Ends
              (λ p. After 1 s p.1)
              (run_on (with_lexer s r) λ tok.
                if is_type tok t
                then pure tok
                else throw (
                    codes "Unexpected token: "
                    ++ token_text tok
                    ++ codes " - expecting "
                    ++ type_name t))
      go (returns {a} le) = found a.0 a.1 _ (is_type a.0 t) refl le
      go throws = throws
