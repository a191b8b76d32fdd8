-- ===== src/Parser/Ends/Decl.antt =====
-- Declarations end: src/compiler/parser.cc.
use axcomp.Prelude.{ℕ, zero, suc, ◌+◌, ◌*◌, ◌≤◌, ◌≡◌, refl, arith, Bool, false, List, [], ◌∷◌}
use axcomp.Token.{
  TokenType, Token, type_eq, ident, comma, colon, semicolon, equals, l_paren, r_paren, kw_const,
  kw_type, kw_var,
}
use axcomp.Token
use axcomp.Lexer.Unicode.{IsUnicode}
use axcomp.Lexer.State.{weight}
use axcomp.Ast.Expr.{AstIdentifier}
use axcomp.Ast.Decl.{AstDeclaration}
use axcomp.Parser.State.{Library, get_token, is_type}
use axcomp.Parser.Decl.{
  put_names, const_decs, parse_const, type_decs, parse_typedec, var_decs, parse_var,
  declaration_loop, parse_declaration, parse_receiver, more_names, param_decs, parse_parameters,
  parse_proc,
}
use axcomp.Parser.Ends.{
  no_fuel, Takes, Sees, Takes-pure, Takes-bind, Takes-le, Takes-throw, Takes-if, Sees-if, Sees-any,
  Sees-bind,
}
use axcomp.Parser.Ends.Tables.{put-Takes}
use axcomp.Parser.Ends.Tokens.{
  Sees-next, weight-type, Takes-peek, next-Takes, peek-Takes, get_token-Takes,
}
use axcomp.Parser.Ends.Basic.{parse_identifier-Takes, set_attrs-Takes}
use axcomp.Parser.Ends.Expr.All.{expressions-end}
use axcomp.Parser.Ends.TypeExpr.{types-end, parse_ident_list-Takes}

put_names-Takes : (n : ℕ) (ids : List AstIdentifier) → Takes n 0 (put_names ids)
unfolding put_names
put_names-Takes n [] = Takes-pure n tt
put_names-Takes n (id ∷ ids) = Takes-bind 0 (put-Takes n _ _) λ _ m le. put_names-Takes m ids

module _ (lib : Library) (good : IsUnicode lib.unicode) where
  -- A token, an identifier, an expression and a type behind a token that was taken.
  pub expect : (n : ℕ) (t : TokenType) → type_eq t Token.eof ≡ false → Takes n 0 (get_token lib t)
  expect n t real = Takes-le 1 (omega arith) (get_token-Takes lib good n t real)

  const_decs-Takes : (f n : ℕ) → 20 * n + 1 ≤ f → Takes n 0 (const_decs lib f)
  unfolding const_decs Token.ordinal
  const_decs-Takes zero n h = no_fuel _ (omega arith) h
  const_decs-Takes (suc f) n h =
      let exprs = expressions-end lib good f in
      Takes-bind 0 (peek-Takes lib good n) λ tok m le.
        Takes-if (is_type tok ident)
          (λ _. Takes-bind 1 (parse_identifier-Takes lib good m) λ bare m1 le1.
            Takes-bind 0 (set_attrs-Takes lib good m1 bare) λ id m2 le2.
              Takes-bind 0 (expect m2 equals refl) λ _ m3 le3.
                Takes-bind 0 (Takes-le 1 (omega arith) (exprs.expr m3 (omega arith))) λ e m4 le4.
                  Takes-bind 0 (expect m4 semicolon refl) λ _ m5 le5.
                    Takes-bind 0 (put-Takes m5 _ _) λ _ m6 le6.
                      Takes-bind 0 (const_decs-Takes f m6 (omega arith))
                        λ rest m7 le7. Takes-pure m7 _)
          λ _. Takes-pure m _

  type_decs-Takes : (f n : ℕ) → 20 * n + 1 ≤ f → Takes n 0 (type_decs lib f)
  unfolding type_decs Token.ordinal
  type_decs-Takes zero n h = no_fuel _ (omega arith) h
  type_decs-Takes (suc f) n h =
      let types = types-end lib good f in
      Takes-bind 0 (peek-Takes lib good n) λ tok m le.
        Takes-if (is_type tok ident)
          (λ _. Takes-bind 1 (parse_identifier-Takes lib good m) λ bare m1 le1.
            Takes-bind 0 (set_attrs-Takes lib good m1 bare) λ id m2 le2.
              Takes-bind 0 (expect m2 equals refl) λ _ m3 le3.
                Takes-bind 0 (Takes-le 1 (omega arith) (types.type m3 (omega arith))) λ t m4 le4.
                  Takes-bind 0 (expect m4 semicolon refl) λ _ m5 le5.
                    Takes-bind 0 (type_decs-Takes f m5 (omega arith))
                      λ rest m6 le6. Takes-pure m6 _)
          λ _. Takes-pure m _

  var_decs-Takes : (f n : ℕ) → 20 * n + 1 ≤ f → Takes n 0 (var_decs lib f)
  unfolding var_decs Token.ordinal
  var_decs-Takes zero n h = no_fuel _ (omega arith) h
  var_decs-Takes (suc f) n h =
      let types = types-end lib good f in
      Takes-bind 0 (peek-Takes lib good n) λ tok m le.
        Takes-if (is_type tok ident)
          (λ _. Takes-bind 1 (parse_ident_list-Takes lib good f m (omega arith)) λ ids m1 le1.
            Takes-bind 0 (expect m1 colon refl) λ _ m2 le2.
              Takes-bind 0 (Takes-le 1 (omega arith) (types.type m2 (omega arith))) λ t m3 le3.
                Takes-bind 0 (expect m3 semicolon refl) λ _ m4 le4.
                  Takes-bind 0 (put_names-Takes m4 ids) λ _ m5 le5.
                    Takes-bind 0 (var_decs-Takes f m5 (omega arith)) λ rest m6 le6. Takes-pure m6 _)
          λ _. Takes-pure m _

  module _ (f n : ℕ) (tok : Token) (one : weight tok ≡ 1) (h : 20 * n ≤ f) where
    parse_const-Sees : Sees tok n 1 (parse_const lib f)
    unfolding parse_const
    parse_const-Sees = Sees-next lib good one λ _ m le. const_decs-Takes f m (omega arith)

    parse_typedec-Sees : Sees tok n 1 (parse_typedec lib f)
    unfolding parse_typedec
    parse_typedec-Sees = Sees-next lib good one λ _ m le. type_decs-Takes f m (omega arith)

    parse_var-Sees : Sees tok n 1 (parse_var lib f)
    unfolding parse_var
    parse_var-Sees = Sees-next lib good one λ _ m le. var_decs-Takes f m (omega arith)

  declaration_loop-Takes :
      (f n : ℕ) (decs : AstDeclaration) → 20 * n + 1 ≤ f → Takes n 0 (declaration_loop lib f decs)
  unfolding declaration_loop Token.ordinal
  declaration_loop-Takes zero n decs h = no_fuel _ (omega arith) h
  declaration_loop-Takes (suc f) n decs h = Takes-peek lib good λ tok.
      Sees-if (is_type tok kw_const)
        (λ seen.
          Sees-bind 1 (parse_const-Sees f n tok (weight-type tok kw_const seen refl) (omega arith))
            λ ds m le. declaration_loop-Takes f m _ (omega arith))
        λ _.
          Sees-if (is_type tok kw_type)
            (λ seen.
              Sees-bind 1
                (parse_typedec-Sees f n tok (weight-type tok kw_type seen refl) (omega arith))
                λ ds m le. declaration_loop-Takes f m _ (omega arith))
            λ _.
              Sees-if (is_type tok kw_var)
                (λ seen.
                  Sees-bind 1
                    (parse_var-Sees f n tok (weight-type tok kw_var seen refl) (omega arith))
                    λ ds m le. declaration_loop-Takes f m _ (omega arith))
                λ _. Sees-any (Takes-pure n decs)

  pub parse_declaration-Takes : (f n : ℕ) → 20 * n + 1 ≤ f → Takes n 0 (parse_declaration lib f)
  unfolding parse_declaration
  parse_declaration-Takes f n h = declaration_loop-Takes f n _ h

  parse_receiver-Takes : (n : ℕ) → Takes n 0 (parse_receiver lib)
  unfolding parse_receiver Token.ordinal
  parse_receiver-Takes n = Takes-bind 0 (next-Takes lib good n) λ _ m le.
      Takes-bind 0 (peek-Takes lib good m) λ tok m1 le1.
        Takes-bind 0
          (Takes-if (is_type tok kw_var) (λ _. next-Takes lib good m1) (λ _. Takes-pure m1 tok))
          λ _ m2 le2.
            Takes-bind 0 (Takes-le 1 (omega arith) (parse_identifier-Takes lib good m2))
              λ id m3 le3. Takes-bind 0 (expect m3 colon refl) λ _ m4 le4.
                Takes-bind 0 (Takes-le 1 (omega arith) (parse_identifier-Takes lib good m4))
                  λ type m5 le5. Takes-bind 0 (expect m5 r_paren refl) λ _ m6 le6. Takes-pure m6 _

  more_names-Takes :
      (f n : ℕ) (is_var : Bool) → 20 * n + 1 ≤ f → Takes n 0 (more_names lib f is_var)
  unfolding more_names
  more_names-Takes zero n is_var h = no_fuel _ (omega arith) h
  more_names-Takes (suc f) n is_var h = Takes-bind 0 (peek-Takes lib good n) λ tok m le.
      Takes-if (is_type tok comma)
        (λ _. Takes-bind 0 (next-Takes lib good m) λ _ m1 le1.
          Takes-bind 1 (parse_identifier-Takes lib good m1) λ id m2 le2.
            Takes-bind 0 (more_names-Takes f m2 is_var (omega arith))
              λ rest m3 le3. Takes-pure m3 _)
        λ _. Takes-pure m _

  param_decs-Takes : (f n : ℕ) → 20 * n + 1 ≤ f → Takes n 0 (param_decs lib f)
  unfolding param_decs Token.ordinal
  param_decs-Takes zero n h = no_fuel _ (omega arith) h
  param_decs-Takes (suc f) n h =
      let types = types-end lib good f in
      Takes-bind 0 (peek-Takes lib good n) λ tok m le.
        Takes-if (is_type tok r_paren) (λ _. Takes-pure m _)
          λ _.
            Takes-bind 0
              (Takes-if (is_type tok kw_var) (λ _. next-Takes lib good m) (λ _. Takes-pure m tok))
              λ _ m1 le1. Takes-bind 1 (parse_identifier-Takes lib good m1) λ id m2 le2.
                Takes-bind 0 (more_names-Takes f m2 _ (omega arith)) λ ids m3 le3.
                  Takes-bind 0 (expect m3 colon refl) λ _ m4 le4.
                    Takes-bind 0 (Takes-le 1 (omega arith) (types.type m4 (omega arith)))
                      λ t m5 le5. Takes-bind 0 (peek-Takes lib good m5) λ after m6 le6.
                        Takes-if (is_type after semicolon)
                          (λ _. Takes-bind 0 (next-Takes lib good m6) λ _ m7 le7.
                            Takes-bind 0 (param_decs-Takes f m7 (omega arith))
                              λ rest m8 le8. Takes-pure m8 _)
                          λ _.
                            Takes-if (is_type after r_paren) (λ _. Takes-pure m6 _)
                              (λ _. Takes-throw _)

  pub parse_parameters-Takes : (f n : ℕ) → 20 * n + 1 ≤ f → Takes n 0 (parse_parameters lib f)
  unfolding parse_parameters
  parse_parameters-Takes f n h = Takes-bind 0 (next-Takes lib good n) λ _ m le.
      Takes-bind 0 (param_decs-Takes f m (omega arith))
        λ ps m1 le1. Takes-bind 0 (next-Takes lib good m1) λ _ m2 le2. Takes-pure m2 _

  pub parse_proc-Takes : (f n : ℕ) → 20 * n ≤ f → Takes n 1 (parse_proc lib f)
  unfolding parse_proc Token.ordinal
  parse_proc-Takes f n h =
      let types = types-end lib good f in
      Takes-bind 0 (peek-Takes lib good n) λ tok m le.
        Takes-bind 0
          (Takes-if (is_type tok l_paren)
            (λ _. Takes-bind 0 (parse_receiver-Takes m) λ r m1 le1. Takes-pure m1 _)
            λ _. Takes-pure m _)
          λ receiver m1 le1. Takes-bind 1 (parse_identifier-Takes lib good m1) λ bare m2 le2.
            Takes-bind 0 (set_attrs-Takes lib good m2 bare) λ name m3 le3.
              Takes-bind 0 (peek-Takes lib good m3) λ open_paren m4 le4.
                Takes-bind 0
                  (Takes-if (is_type open_paren l_paren)
                    (λ _. parse_parameters-Takes f m4 (omega arith)) λ _. Takes-pure m4 _)
                  λ params m5 le5. Takes-bind 0 (peek-Takes lib good m5) λ after m6 le6.
                    Takes-bind 0
                      (Takes-if (is_type after colon)
                        (λ _.
                          Takes-bind 0
                            (Takes-bind 0 (next-Takes lib good m6)
                              λ _ m7 le7. Takes-le 1 (omega arith) (types.type m7 (omega arith)))
                            λ t m7 le7. Takes-pure m7 _)
                        λ _. Takes-pure m6 _)
                      λ return_type m7 le7.
                        Takes-bind 0 (expect m7 semicolon refl) λ _ m8 le8. Takes-pure m8 _
