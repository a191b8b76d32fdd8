-- ===== src/Parser/Ends/Expr/Designators.antt =====
-- Designators, calls and sets: src/compiler/parser.cc.
use axcomp.Prelude.{ℕ, suc, ◌+◌, ◌*◌, ◌≤◌, ◌≡◌, refl, arith}
use axcomp.Token.{
  TokenType, Token, type_eq, l_paren, r_paren, hexinteger, chr, hexchr, comma, kw_true, kw_false,
  kw_nil, l_brace, r_brace, tilde, ident, l_bracket, r_bracket, period, caret, dotdot,
}
use axcomp.Token
use axcomp.Lexer.Unicode.{IsUnicode}
use axcomp.Lexer.State.{weight}
use axcomp.Ast.Expr.{AstDesignator}
use axcomp.Parser.State.{Library, is_type}
use axcomp.Parser.Expr.{
  parse_designator, parse_selectors, selectors_of, parse_indices, parse_call, parse_args, parse_set,
  parse_elements, parse_case_label,
}
use axcomp.Parser.Ends.{
  Takes, Sees, Takes-pure, Takes-bind, Takes-le, Takes-throw, Takes-if, Sees-any,
}
use axcomp.Parser.Ends.Tokens.{weight-of, next-Takes, Sees-next, Takes-peek, get_token-Takes}
use axcomp.Parser.Ends.Basic.{parse_identifier-Takes, parse_qualident-Takes}
use axcomp.Parser.Ends.Expr.{ExprEnds}
use axcomp.Parser.Ends.Tables.{printed-Takes}

module _ (lib : Library) (good : IsUnicode lib.unicode) (f : ℕ) (below : ExprEnds lib good f) where
  pub parse_designator-Takes :
      (n : ℕ) → 20 * n + 1 ≤ suc f → Takes n 1 (parse_designator lib (suc f))
  unfolding parse_designator
  parse_designator-Takes n h =
      Takes-bind 1 (parse_qualident-Takes lib good n)
        λ q m le. Takes-bind 0 (below.selectors m (omega arith)) λ sels m1 le1. Takes-pure m1 _

  pub parse_selectors-Takes : (n : ℕ) → 20 * n + 2 ≤ suc f → Takes n 0 (parse_selectors lib (suc f))
  unfolding parse_selectors
  parse_selectors-Takes n h = Takes-peek lib good λ tok. below.selectors_case n tok (omega arith)

  pub selectors_of-Sees :
      (n : ℕ) (tok : Token) (t : TokenType)
      → tok.type ≡ t
      → 20 * n + 1 ≤ suc f
      → Sees tok n 0 (selectors_of lib (suc f) t)
  unfolding selectors_of Token.ordinal
  selectors_of-Sees n tok l_bracket e h = Sees-next lib good (weight-of tok e refl) λ _ m le.
      Takes-bind 0 (Takes-le 1 (omega arith) (below.indices m (omega arith))) λ ref m1 le1.
        Takes-bind 0 (Takes-le 1 (omega arith) (get_token-Takes lib good m1 r_bracket refl))
          λ _ m2 le2. Takes-bind 0 (below.selectors m2 (omega arith)) λ rest m3 le3. Takes-pure m3 _
  selectors_of-Sees n tok period e h = Sees-next lib good (weight-of tok e refl) λ _ m le.
      Takes-bind 0 (Takes-le 1 (omega arith) (parse_identifier-Takes lib good m))
        λ id m1 le1. Takes-bind 0 (below.selectors m1 (omega arith)) λ rest m2 le2. Takes-pure m2 _
  selectors_of-Sees n tok caret e h =
      Sees-next lib good (weight-of tok e refl)
        λ _ m le. Takes-bind 0 (below.selectors m (omega arith)) λ rest m1 le1. Takes-pure m1 _
  selectors_of-Sees n tok _ e h = Sees-any (Takes-pure n _)

  pub parse_indices-Takes : (n : ℕ) → 20 * n + 6 ≤ suc f → Takes n 1 (parse_indices lib (suc f))
  unfolding parse_indices
  parse_indices-Takes n h = Takes-bind 1 (below.simpleexpr n (omega arith)) λ e m le.
      Takes-peek lib good λ tok. Sees-any (
        Takes-if (is_type tok comma)
          (λ _. Takes-bind 0 (next-Takes lib good m) λ _ m1 le1.
            Takes-bind 0 (Takes-le 1 (omega arith) (below.indices m1 (omega arith)))
              λ rest m2 le2. Takes-pure m2 _)
          λ _.
            Takes-if (is_type tok r_bracket) (λ _. Takes-pure m _)
              λ _.
                Takes-bind 0 (Takes-le 1 (omega arith) (below.indices m (omega arith)))
                  λ rest m1 le1. Takes-pure m1 _)

  pub parse_call-Takes :
      (n : ℕ) (d : AstDesignator) → 20 * n + 1 ≤ suc f → Takes n 0 (parse_call lib (suc f) d)
  unfolding parse_call Token.ordinal
  parse_call-Takes n d h = Takes-peek lib good λ tok. Sees-any (
      Takes-if (is_type tok l_paren)
        (λ _. Takes-bind 1 (get_token-Takes lib good n l_paren refl) λ _ m le.
          Takes-peek lib good λ first. Sees-any (
            Takes-bind 0
              (Takes-if (is_type first r_paren) (λ _. Takes-pure m _)
                λ _. Takes-le 1 (omega arith) (below.args m (omega arith)))
              λ args m1 le1.
                Takes-bind 0 (Takes-le 1 (omega arith) (get_token-Takes lib good m1 r_paren refl))
                  λ _ m2 le2. Takes-pure m2 _))
        λ _. Takes-pure n _)

  pub parse_args-Takes : (n : ℕ) → 20 * n + 7 ≤ suc f → Takes n 1 (parse_args lib (suc f))
  unfolding parse_args
  parse_args-Takes n h = Takes-bind 1 (below.expr n (omega arith)) λ e m le.
      Takes-peek lib good λ tok. Sees-any (
        Takes-if (is_type tok r_paren) (λ _. Takes-pure m _)
          λ _.
            Takes-if (is_type tok comma)
              (λ _. Takes-bind 0 (next-Takes lib good m) λ _ m1 le1.
                Takes-bind 0 (Takes-le 1 (omega arith) (below.args m1 (omega arith)))
                  λ rest m2 le2. Takes-pure m2 _)
              λ _. Takes-throw _)

  pub parse_set-Sees :
      (n : ℕ) (tok : Token)
      → weight tok ≡ 1
      → 20 * n + 1 ≤ suc f
      → Sees tok n 1 (parse_set lib (suc f))
  unfolding parse_set
  parse_set-Sees n tok one h = Sees-next lib good one λ _ m le. Takes-peek lib good λ first.
      Sees-any (
        Takes-bind 0
          (Takes-if (is_type first r_brace) (λ _. Takes-pure m _)
            λ _. Takes-le 1 (omega arith) (below.elements m (omega arith)))
          λ ls m1 le1. Takes-bind 0 (next-Takes lib good m1) λ _ m2 le2. Takes-pure m2 _)

  pub parse_elements-Takes : (n : ℕ) → 20 * n + 7 ≤ suc f → Takes n 1 (parse_elements lib (suc f))
  unfolding parse_elements Token.ordinal
  parse_elements-Takes n h = Takes-bind 1 (below.case_label n (omega arith)) λ l m le.
      Takes-peek lib good λ tok. Sees-any (
        Takes-if (is_type tok r_brace) (λ _. Takes-pure m _)
          λ _.
            Takes-bind 0 (Takes-le 1 (omega arith) (get_token-Takes lib good m comma refl))
              λ _ m1 le1. Takes-peek lib good λ after. Sees-any (
                Takes-bind 0
                  (Takes-if (is_type after r_brace) (λ _. Takes-pure m1 _)
                    λ _. Takes-le 1 (omega arith) (below.elements m1 (omega arith)))
                  λ rest m2 le2. Takes-pure m2 _))

  pub parse_case_label-Takes :
      (n : ℕ) → 20 * n + 6 ≤ suc f → Takes n 1 (parse_case_label lib (suc f))
  unfolding parse_case_label
  parse_case_label-Takes n h = Takes-bind 1 (below.simpleexpr n (omega arith)) λ e m le.
      Takes-peek lib good λ tok. Sees-any (
        Takes-if (is_type tok dotdot)
          (λ _. Takes-bind 0 (next-Takes lib good m) λ _ m1 le1.
            Takes-bind 0 (Takes-le 1 (omega arith) (below.simpleexpr m1 (omega arith))) λ d m2 le2.
              Takes-bind 0 (printed-Takes m2 _)
                λ _ m3 le3. Takes-bind 0 (printed-Takes m3 _) λ _ m4 le4. Takes-pure m4 _)
          λ _. Takes-bind 0 (printed-Takes m _) λ _ m1 le1. Takes-pure m1 _)
