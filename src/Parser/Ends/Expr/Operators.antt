-- ===== src/Parser/Ends/Expr/Operators.antt =====
-- The operators and factors of expressions: src/compiler/parser.cc.
use axcomp.Prelude.{ℕ, suc, ◌+◌, ◌*◌, ◌≤◌, ◌≡◌, refl, arith, true, ◌||◌}
use axcomp.Token.{
  TokenType, Token, type_eq, l_paren, r_paren, hexinteger, chr, hexchr, comma, kw_true, kw_false,
  kw_nil, l_brace, r_brace, tilde, ident, l_bracket, r_bracket, period, caret, dotdot,
}
use axcomp.Token
use axcomp.Lexer.Unicode.{IsUnicode}
use axcomp.Lexer.State.{weight}
use axcomp.Parser.State.{Library, is_type}
use axcomp.Parser.Expr.{
  relation_ops, term_ops, sign_ops, add_ops, is_forward, sign_at, parse_expr, parse_simpleexpr,
  parse_adds, parse_term, parse_mults, parse_factor, factor_of,
}
use axcomp.Parser.Ends.{
  Takes, Sees, Takes-pure, Takes-bind, Takes-le, Takes-throw, Takes-if, Sees-if, Sees-any,
  Sees-bind,
}
use axcomp.Parser.Ends.Tables.{find-Takes}
use axcomp.Parser.Ends.Tokens.{weight-of, Sees-next, Takes-peek, get_token-Takes}
use axcomp.Parser.Ends.Basic.{
  parse_integer-Takes, parse_real-Sees, parse_char-Sees, parse_string-Sees, parse_boolean-Sees,
  parse_nil-Takes,
}
use axcomp.Parser.Ends.Expr.{ExprEnds}
use axcomp.Parser.Ends.Tables.{printed-Takes}

-- An operator is a token.
relation-weight : (tok : Token) → relation_ops tok.type ≡ true → weight tok ≡ 1
unfolding Token.ordinal
relation-weight tok e = ground arith

term-weight : (tok : Token) → term_ops tok.type ≡ true → weight tok ≡ 1
unfolding Token.ordinal
term-weight tok e = ground arith

sign-weight : (tok : Token) → sign_ops tok.type ≡ true → weight tok ≡ 1
unfolding Token.ordinal
sign-weight tok e = ground arith

add-weight : (tok : Token) → add_ops tok.type ≡ true → weight tok ≡ 1
unfolding Token.ordinal
add-weight tok e = ground arith

module _ (lib : Library) (good : IsUnicode lib.unicode) (f : ℕ) (below : ExprEnds lib good f) where
  pub parse_expr-Takes : (n : ℕ) → 20 * n + 6 ≤ suc f → Takes n 1 (parse_expr lib (suc f))
  unfolding parse_expr
  parse_expr-Takes n h = Takes-bind 1 (below.simpleexpr n (omega arith)) λ e m le.
      Takes-peek lib good λ tok.
        Sees-if (relation_ops tok.type)
          (λ op. Sees-next lib good (relation-weight tok op) λ _ m1 le1.
            Takes-bind 0 (Takes-le 1 (omega arith) (below.simpleexpr m1 (omega arith)))
              λ d m2 le2. Takes-pure m2 _)
          λ _. Sees-any (Takes-pure m _)

  sign_at-Sees : (n : ℕ) (tok : Token) → Sees tok n 0 (sign_at lib tok)
  sign_at-Sees n tok =
      Sees-if (sign_ops tok.type)
        (λ op. Sees-next lib good (sign-weight tok op) λ _ m le. Takes-pure m _)
        λ _. Sees-any (Takes-pure n _)

  pub parse_simpleexpr-Takes :
      (n : ℕ) → 20 * n + 5 ≤ suc f → Takes n 1 (parse_simpleexpr lib (suc f))
  unfolding parse_simpleexpr
  parse_simpleexpr-Takes n h = Takes-peek lib good λ tok.
      Sees-bind 0 (sign_at-Sees n tok) λ sign m le.
        Takes-bind 1 (below.term m (omega arith))
          λ t m1 le1. Takes-bind 0 (below.adds m1 (omega arith)) λ rest m2 le2. Takes-pure m2 _

  pub parse_adds-Takes : (n : ℕ) → 20 * n + 1 ≤ suc f → Takes n 0 (parse_adds lib (suc f))
  unfolding parse_adds
  parse_adds-Takes n h = Takes-peek lib good λ tok.
      Sees-if (add_ops tok.type)
        (λ op. Sees-next lib good (add-weight tok op) λ _ m le.
          Takes-bind 0 (Takes-le 1 (omega arith) (below.term m (omega arith)))
            λ t m1 le1. Takes-bind 0 (below.adds m1 (omega arith)) λ rest m2 le2. Takes-pure m2 _)
        λ _. Sees-any (Takes-pure n _)

  pub parse_term-Takes : (n : ℕ) → 20 * n + 4 ≤ suc f → Takes n 1 (parse_term lib (suc f))
  unfolding parse_term
  parse_term-Takes n h =
      Takes-bind 1 (below.factor n (omega arith))
        λ e m le. Takes-bind 0 (below.mults m (omega arith)) λ rest m1 le1. Takes-pure m1 _

  pub parse_mults-Takes : (n : ℕ) → 20 * n + 1 ≤ suc f → Takes n 0 (parse_mults lib (suc f))
  unfolding parse_mults
  parse_mults-Takes n h = Takes-peek lib good λ tok.
      Sees-if (term_ops tok.type)
        (λ op. Sees-next lib good (term-weight tok op) λ _ m le.
          Takes-bind 0 (Takes-le 1 (omega arith) (below.factor m (omega arith)))
            λ t m1 le1. Takes-bind 0 (below.mults m1 (omega arith)) λ rest m2 le2. Takes-pure m2 _)
        λ _. Sees-any (Takes-pure n _)

  pub parse_factor-Takes : (n : ℕ) → 20 * n + 3 ≤ suc f → Takes n 1 (parse_factor lib (suc f))
  unfolding parse_factor
  parse_factor-Takes n h = Takes-peek lib good λ tok. below.factor_case n tok (omega arith)

  -- A designator, and the call behind it.
  identifier-Takes :
      (n : ℕ) → 20 * n + 2 ≤ suc f → (tok : Token) → Takes n 1 (factor_of lib (suc f) tok ident)
  unfolding factor_of
  identifier-Takes n h tok = Takes-bind 1 (below.designator n (omega arith)) λ d m le.
      Takes-peek lib good λ following. Sees-any (
        Takes-bind 0 (printed-Takes m _) λ name m1 le1.
          Takes-bind 0 (find-Takes m1 name) λ res m2 le2.
            Takes-if (is_type following l_paren || is_forward res)
              (λ _. Takes-bind 0 (below.call m2 d (omega arith)) λ c m3 le3. Takes-pure m3 _)
              λ _. Takes-pure m2 _)

  pub factor_of-Sees :
      (n : ℕ) (tok : Token) (t : TokenType)
      → tok.type ≡ t
      → 20 * n + 2 ≤ suc f
      → Sees tok n 1 (factor_of lib (suc f) tok t)
  unfolding factor_of Token.ordinal
  factor_of-Sees n tok l_paren e h = Sees-next lib good (weight-of tok e refl) λ _ m le.
      Takes-bind 0 (Takes-le 1 (omega arith) (below.expr m (omega arith))) λ x m1 le1.
        Takes-bind 0 (Takes-le 1 (omega arith) (get_token-Takes lib good m1 r_paren refl))
          λ _ m2 le2. Takes-pure m2 _
  factor_of-Sees n tok Token.integer e h = Sees-any (parse_integer-Takes lib good n)
  factor_of-Sees n tok hexinteger e h = Sees-any (parse_integer-Takes lib good n)
  factor_of-Sees n tok Token.real e h = parse_real-Sees lib good tok n (weight-of tok e refl)
  factor_of-Sees n tok hexchr e h = parse_char-Sees lib good tok n (weight-of tok e refl)
  factor_of-Sees n tok chr e h = parse_char-Sees lib good tok n (weight-of tok e refl)
  factor_of-Sees n tok Token.string e h = parse_string-Sees lib good tok n (weight-of tok e refl)
  factor_of-Sees n tok kw_true e h = parse_boolean-Sees lib good tok n (weight-of tok e refl)
  factor_of-Sees n tok kw_false e h = parse_boolean-Sees lib good tok n (weight-of tok e refl)
  factor_of-Sees n tok kw_nil e h = Sees-any (parse_nil-Takes lib good n)
  factor_of-Sees n tok l_brace e h =
      Sees-bind 1 (below.set n tok (weight-of tok e refl) (omega arith)) λ ls m le. Takes-pure m _
  factor_of-Sees n tok tilde e h = Sees-next lib good (weight-of tok e refl) λ _ m le.
      Takes-bind 0 (Takes-le 1 (omega arith) (below.factor m (omega arith)))
        λ x m1 le1. Takes-pure m1 _
  factor_of-Sees n tok ident e h = Sees-any (identifier-Takes n h tok)
  factor_of-Sees n tok _ e h = Sees-any (Takes-throw _)
