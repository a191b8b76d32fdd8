-- ===== src/Parser/Ends/Stmt.antt =====
-- Statements end: src/compiler/parser.cc.
use axcomp.Prelude.{ℕ, zero, suc, ◌+◌, ◌*◌, ◌≤◌, ◌≡◌, refl, arith, Bool, false, ◌||◌}
use axcomp.Token.{
  TokenType, Token, type_eq, ident, semicolon, comma, colon, bar, assign, l_paren, kw_return, kw_if,
  kw_case, kw_for, kw_while, kw_repeat, kw_exit, kw_loop, kw_begin, kw_end, kw_elsif, kw_else,
  kw_then, kw_of, kw_to, kw_by, kw_do, kw_until,
}
use axcomp.Token
use axcomp.Lexer.Unicode.{IsUnicode}
use axcomp.Ast.Expr.{AstDesignator}
use axcomp.Parser.State.{Library, get_token, is_type}
use axcomp.Parser.Expr.{parse_expr}
use axcomp.Parser.Stmt.{
  module_ends, if_ends, case_element_ends, repeat_ends, skip, parse_labels, parse_assignment,
  parse_return, parse_designated, parse_by, parse_statement, statement_of, parse_statement_block,
  parse_elsifs, parse_else, parse_case_elements,
}
use axcomp.Parser.Ends.{
  no_fuel, Takes, Takes-pure, Takes-bind, Takes-le, Takes-throw, Takes-if, Sees-if, Sees-any,
}
use axcomp.Parser.Ends.Tokens.{
  Sees-next, weight-type, Takes-peek, next-Takes, peek-Takes, get_token-Takes,
}
use axcomp.Parser.Ends.Basic.{parse_identifier-Takes}
use axcomp.Parser.Ends.Expr.All.{expressions-end}

module _ (lib : Library) (good : IsUnicode lib.unicode) where
  skip-Takes : (n : ℕ) (t : TokenType) → Takes n 0 (skip lib t)
  skip-Takes n t =
      Takes-bind 0 (peek-Takes lib good n)
        λ tok m le. Takes-if (is_type tok t) (λ _. next-Takes lib good m) (λ _. Takes-pure m tok)

  parse_labels-Takes : (f n : ℕ) → 20 * n + 7 ≤ f → Takes n 1 (parse_labels lib f)
  unfolding parse_labels
  parse_labels-Takes zero n h = no_fuel _ (omega arith) h
  parse_labels-Takes (suc f) n h =
      let exprs = expressions-end lib good f in
      Takes-bind 1 (exprs.case_label n (omega arith)) λ l m le.
        Takes-bind 0 (peek-Takes lib good m) λ tok m1 le1.
          Takes-if (is_type tok comma)
            (λ _. Takes-bind 0 (next-Takes lib good m1) λ _ m2 le2.
              Takes-bind 0 (Takes-le 1 (omega arith) (parse_labels-Takes f m2 (omega arith)))
                λ rest m3 le3. Takes-pure m3 _)
            λ _. Takes-pure m1 _

  module _ (f : ℕ) where
    parse_assignment-Takes :
        (n : ℕ) (d : AstDesignator) → 20 * n ≤ f → Takes n 1 (parse_assignment lib f d)
    unfolding parse_assignment Token.ordinal
    parse_assignment-Takes n d h =
        let exprs = expressions-end lib good f in
        Takes-bind 1 (get_token-Takes lib good n assign refl) λ _ m le.
          Takes-bind 0 (Takes-le 1 (omega arith) (exprs.expr m (omega arith)))
            λ e m1 le1. Takes-pure m1 _

    parse_return-Takes : (n : ℕ) → 20 * n ≤ f → Takes n 1 (parse_return lib f)
    unfolding parse_return Token.ordinal
    parse_return-Takes n h =
        let exprs = expressions-end lib good f in
        Takes-bind 1 (get_token-Takes lib good n kw_return refl) λ _ m le.
          Takes-bind 0 (peek-Takes lib good m) λ tok m1 le1.
            Takes-if (is_type tok semicolon || is_type tok kw_end) (λ _. Takes-pure m1 _)
              λ _.
                Takes-bind 0 (Takes-le 1 (omega arith) (exprs.expr m1 (omega arith)))
                  λ e m2 le2. Takes-pure m2 _

    parse_designated-Takes : (n : ℕ) → 20 * n + 1 ≤ f → Takes n 1 (parse_designated lib f)
    unfolding parse_designated
    parse_designated-Takes n h =
        let exprs = expressions-end lib good f in
        Takes-bind 1 (exprs.designator n (omega arith)) λ d m le.
          Takes-bind 0 (peek-Takes lib good m) λ tok m1 le1.
            Takes-if (is_type tok l_paren || is_type tok semicolon || is_type tok kw_end)
              (λ _. Takes-bind 0 (exprs.call m1 d (omega arith)) λ c m2 le2. Takes-pure m2 _)
              λ _. Takes-le 1 (omega arith) (parse_assignment-Takes m1 d (omega arith))

    parse_by-Takes : (n : ℕ) → 20 * n + 6 ≤ f → Takes n 0 (parse_by lib f)
    unfolding parse_by
    parse_by-Takes n h =
        let exprs = expressions-end lib good f in
        Takes-bind 0 (peek-Takes lib good n) λ tok m le.
          Takes-if (is_type tok kw_by)
            (λ _. Takes-bind 0 (next-Takes lib good m) λ _ m1 le1.
              Takes-bind 0 (Takes-le 1 (omega arith) (exprs.expr m1 (omega arith)))
                λ e m2 le2. Takes-pure m2 _)
            λ _. Takes-pure m _

  -- What holds of the procedures that call each other, on fuel `f`.
  pub record StmtEnds (f : ℕ) : Type 0 where
    pub statement : (n : ℕ) → 20 * n + 3 ≤ f → Takes n 1 (parse_statement lib f)
    pub statement_case :
        (n : ℕ) (tok : Token) (t : TokenType)
        → 20 * n + 2 ≤ f
        → Takes n 1 (statement_of lib f tok t)
    pub block :
        (n : ℕ) (ends : TokenType → Bool)
        → 20 * n + 4 ≤ f
        → Takes n 0 (parse_statement_block lib f ends)
    pub elsifs : (n : ℕ) → 20 * n + 1 ≤ f → Takes n 0 (parse_elsifs lib f)
    pub else_part : (n : ℕ) → 20 * n + 1 ≤ f → Takes n 0 (parse_else lib f)
    pub elements : (n : ℕ) → 20 * n + 8 ≤ f → Takes n 0 (parse_case_elements lib f)

  module _ (f : ℕ) (below : StmtEnds f) where
    -- A token that is expected, and a block, behind a token that was taken.
    expect : (n : ℕ) (t : TokenType) → type_eq t Token.eof ≡ false → Takes n 0 (get_token lib t)
    expect n t real = Takes-le 1 (omega arith) (get_token-Takes lib good n t real)

    parse_statement-Takes : (n : ℕ) → 20 * n + 3 ≤ suc f → Takes n 1 (parse_statement lib (suc f))
    unfolding parse_statement
    parse_statement-Takes n h =
        Takes-bind 0 (peek-Takes lib good n)
          λ tok m le. below.statement_case m tok tok.type (omega arith)

    -- An expression behind a token.
    expr-Takes : (n : ℕ) → 20 * n + 6 ≤ f → Takes n 0 (parse_expr lib f)
    expr-Takes n h =
        let exprs = expressions-end lib good f in Takes-le 1 (omega arith) (exprs.expr n h)

    parse_if-Takes :
        (n : ℕ) (tok : Token) → 20 * n + 2 ≤ suc f → Takes n 1 (statement_of lib (suc f) tok kw_if)
    unfolding statement_of Token.ordinal
    parse_if-Takes n tok h = Takes-bind 1 (get_token-Takes lib good n kw_if refl) λ _ m le.
        Takes-bind 0 (expr-Takes m (omega arith)) λ e m1 le1.
          Takes-bind 0 (expect m1 kw_then refl) λ _ m2 le2.
            Takes-bind 0 (below.block m2 if_ends (omega arith)) λ ss m3 le3.
              Takes-bind 0 (below.elsifs m3 (omega arith)) λ elsifs m4 le4.
                Takes-bind 0 (below.else_part m4 (omega arith)) λ else_stats m5 le5.
                  Takes-bind 0 (expect m5 kw_end refl) λ _ m6 le6. Takes-pure m6 _

    parse_case-Takes :
        (n : ℕ) (tok : Token)
        → 20 * n + 2 ≤ suc f
        → Takes n 1 (statement_of lib (suc f) tok kw_case)
    unfolding statement_of Token.ordinal
    parse_case-Takes n tok h =
        let exprs = expressions-end lib good f in
        Takes-bind 1 (get_token-Takes lib good n kw_case refl) λ _ m le.
          Takes-bind 0 (Takes-le 1 (omega arith) (exprs.simpleexpr m (omega arith))) λ e m1 le1.
            Takes-bind 0 (expect m1 kw_of refl) λ _ m2 le2.
              Takes-bind 0 (skip-Takes m2 bar) λ _ m3 le3.
                Takes-bind 0 (below.elements m3 (omega arith)) λ elements m4 le4.
                  Takes-bind 0 (peek-Takes lib good m4) λ after m5 le5.
                    Takes-bind 0
                      (Takes-if (is_type after kw_else)
                        (λ _.
                          Takes-bind 0 (next-Takes lib good m5)
                            λ _ m6 le6. below.block m6 module_ends (omega arith))
                        λ _. Takes-pure m5 _)
                      λ else_stats m6 le6.
                        Takes-bind 0 (expect m6 kw_end refl) λ _ m7 le7. Takes-pure m7 _

    parse_for-Takes :
        (n : ℕ) (tok : Token) → 20 * n + 2 ≤ suc f → Takes n 1 (statement_of lib (suc f) tok kw_for)
    unfolding statement_of Token.ordinal
    parse_for-Takes n tok h = Takes-bind 1 (get_token-Takes lib good n kw_for refl) λ _ m le.
        Takes-bind 0 (Takes-le 1 (omega arith) (parse_identifier-Takes lib good m)) λ id m1 le1.
          Takes-bind 0 (expect m1 assign refl) λ _ m2 le2.
            Takes-bind 0 (expr-Takes m2 (omega arith)) λ first m3 le3.
              Takes-bind 0 (expect m3 kw_to refl) λ _ m4 le4.
                Takes-bind 0 (expr-Takes m4 (omega arith)) λ last m5 le5.
                  Takes-bind 0 (parse_by-Takes f m5 (omega arith)) λ by m6 le6.
                    Takes-bind 0 (expect m6 kw_do refl) λ _ m7 le7.
                      Takes-bind 0 (below.block m7 module_ends (omega arith)) λ ss m8 le8.
                        Takes-bind 0 (expect m8 kw_end refl) λ _ m9 le9. Takes-pure m9 _

    statement_of-Takes :
        (n : ℕ) (tok : Token) (t : TokenType)
        → 20 * n + 2 ≤ suc f
        → Takes n 1 (statement_of lib (suc f) tok t)
    unfolding statement_of Token.ordinal
    statement_of-Takes n tok kw_return h = parse_return-Takes f n (omega arith)
    statement_of-Takes n tok kw_if h = parse_if-Takes n tok h
    statement_of-Takes n tok kw_case h = parse_case-Takes n tok h
    statement_of-Takes n tok kw_for h = parse_for-Takes n tok h
    statement_of-Takes n tok kw_while h =
        Takes-bind 1 (get_token-Takes lib good n kw_while refl) λ _ m le.
          Takes-bind 0 (expr-Takes m (omega arith)) λ e m1 le1.
            Takes-bind 0 (expect m1 kw_do refl) λ _ m2 le2.
              Takes-bind 0 (below.block m2 module_ends (omega arith))
                λ ss m3 le3. Takes-bind 0 (expect m3 kw_end refl) λ _ m4 le4. Takes-pure m4 _
    statement_of-Takes n tok kw_repeat h =
        Takes-bind 1 (get_token-Takes lib good n kw_repeat refl) λ _ m le.
          Takes-bind 0 (below.block m repeat_ends (omega arith)) λ ss m1 le1.
            Takes-bind 0 (expect m1 kw_until refl)
              λ _ m2 le2. Takes-bind 0 (expr-Takes m2 (omega arith)) λ e m3 le3. Takes-pure m3 _
    statement_of-Takes n tok kw_exit h =
        Takes-bind 1 (get_token-Takes lib good n kw_exit refl) λ _ m le. Takes-pure m _
    statement_of-Takes n tok kw_loop h =
        Takes-bind 1 (get_token-Takes lib good n kw_loop refl) λ _ m le.
          Takes-bind 0 (below.block m module_ends (omega arith))
            λ ss m1 le1. Takes-bind 0 (expect m1 kw_end refl) λ _ m2 le2. Takes-pure m2 _
    statement_of-Takes n tok kw_begin h =
        Takes-bind 1 (get_token-Takes lib good n kw_begin refl) λ _ m le.
          Takes-bind 0 (below.block m module_ends (omega arith))
            λ ss m1 le1. Takes-bind 0 (expect m1 kw_end refl) λ _ m2 le2. Takes-pure m2 _
    statement_of-Takes n tok ident h = parse_designated-Takes f n (omega arith)
    statement_of-Takes n tok _ h = Takes-throw _

    parse_statement_block-Takes :
        (n : ℕ) (ends : TokenType → Bool)
        → 20 * n + 4 ≤ suc f
        → Takes n 0 (parse_statement_block lib (suc f) ends)
    unfolding parse_statement_block Token.ordinal
    parse_statement_block-Takes n ends h = Takes-bind 0 (peek-Takes lib good n) λ tok m le.
        Takes-if (is_type tok semicolon)
          (λ _.
            Takes-bind 1 (get_token-Takes lib good m semicolon refl)
              λ _ m1 le1. below.block m1 ends (omega arith))
          λ _.
            Takes-if (ends tok.type) (λ _. Takes-pure m _)
              λ _. Takes-bind 1 (below.statement m (omega arith)) λ first m1 le1.
                Takes-bind 0 (below.block m1 ends (omega arith)) λ rest m2 le2. Takes-pure m2 _

    parse_elsifs-Takes : (n : ℕ) → 20 * n + 1 ≤ suc f → Takes n 0 (parse_elsifs lib (suc f))
    unfolding parse_elsifs Token.ordinal
    parse_elsifs-Takes n h = Takes-peek lib good λ tok.
        Sees-if (is_type tok kw_elsif)
          (λ seen. Sees-next lib good (weight-type tok kw_elsif seen refl) λ _ m le.
            Takes-bind 0 (expr-Takes m (omega arith)) λ e m1 le1.
              Takes-bind 0 (expect m1 kw_then refl) λ _ m2 le2.
                Takes-bind 0 (below.block m2 if_ends (omega arith)) λ ss m3 le3.
                  Takes-bind 0 (below.elsifs m3 (omega arith)) λ rest m4 le4. Takes-pure m4 _)
          λ _. Sees-any (Takes-pure n _)

    parse_else-Takes : (n : ℕ) → 20 * n + 1 ≤ suc f → Takes n 0 (parse_else lib (suc f))
    unfolding parse_else Token.ordinal
    parse_else-Takes n h = Takes-peek lib good λ tok.
        Sees-if (is_type tok kw_else)
          (λ seen. Sees-next lib good (weight-type tok kw_else seen refl) λ _ m le.
            Takes-bind 0 (below.block m module_ends (omega arith)) λ ss m1 le1. Takes-pure m1 _)
          λ _. Sees-any (Takes-pure n _)

    parse_case_elements-Takes :
        (n : ℕ) → 20 * n + 8 ≤ suc f → Takes n 0 (parse_case_elements lib (suc f))
    unfolding parse_case_elements Token.ordinal
    parse_case_elements-Takes n h = Takes-bind 0 (peek-Takes lib good n) λ tok m le.
        Takes-if (is_type tok kw_end || is_type tok kw_else) (λ _. Takes-pure m _)
          λ _.
            Takes-bind 0
              (Takes-if (is_type tok colon) (λ _. Takes-pure m _)
                λ _. Takes-le 1 (omega arith) (parse_labels-Takes f m (omega arith)))
              λ labels m1 le1. Takes-bind 1 (get_token-Takes lib good m1 colon refl) λ _ m2 le2.
                Takes-bind 0 (below.block m2 case_element_ends (omega arith)) λ ss m3 le3.
                  Takes-bind 0 (skip-Takes m3 bar) λ _ m4 le4.
                    Takes-bind 0 (below.elements m4 (omega arith)) λ rest m5 le5. Takes-pure m5 _

  -- Statements end.
  pub statements-end : (f : ℕ) → StmtEnds f
  statements-end zero = record {
    statement = λ n h. no_fuel _ (omega arith) h;
    statement_case = λ n tok t h. no_fuel _ (omega arith) h;
    block = λ n ends h. no_fuel _ (omega arith) h;
    elsifs = λ n h. no_fuel _ (omega arith) h;
    else_part = λ n h. no_fuel _ (omega arith) h;
    elements = λ n h. no_fuel _ (omega arith) h;
  }
  statements-end (suc f) =
      let below = statements-end f in
      record {
        statement = parse_statement-Takes f below;
        statement_case = statement_of-Takes f below;
        block = parse_statement_block-Takes f below;
        elsifs = parse_elsifs-Takes f below;
        else_part = parse_else-Takes f below;
        elements = parse_case_elements-Takes f below;
      }
