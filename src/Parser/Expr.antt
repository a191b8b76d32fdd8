-- ===== src/Parser/Expr.antt =====
-- Expressions: src/compiler/parser.cc.
use axcomp.Prelude.{ℕ, zero, suc, Bool, false, ◌||◌, ◌++◌, Option, none, some, if◌then◌else◌, codes}
use axcomp.Error.{out_of_fuel}
use axcomp.Token.{
  TokenType, Token, type_eq, token_text, equals, hash, less, leq, greater, gteq, kw_in, plus, dash,
  kw_or, asterix, slash, kw_div, kw_mod, ampersand, l_paren, r_paren, hexinteger, chr, hexchr,
  comma, kw_true, kw_false, kw_nil, l_brace, r_brace, tilde, ident, l_bracket, r_bracket, period,
  caret, dotdot,
}
use axcomp.Token
use axcomp.Types.{TypeId, type_id, id_eq}
use axcomp.Ast.Expr.{
  AstExpr, plain, relation, AstSimpleExpr, simple_expr, Adds, no_adds, add, AstTerm, term, Mults,
  no_mults, mult, AstFactor, designated, parenthesised, called, set, negation, AstDesignator,
  designator, Selectors, no_selectors, array_ref, field_ref, pointer_ref, ArrayRef, no_indices,
  index, AstCall, call, Exprs, no_exprs, argument, Labels, no_labels, labelled, AstLabel, single,
  range,
}
use axcomp.Printer.Expr.{print_designator, print_simple}
use axcomp.Parser.State.{
  Library, Symbol, Parse, ◌>>=◌, ◌>>◌, pure, throw, fuel_out, printed, next, peek, find, get_token,
  is_type,
}
use axcomp.Parser.Basic.{
  parse_identifier, parse_qualident, parse_integer, parse_real, parse_char, parse_string,
  parse_boolean, parse_nil,
}

-- `relationOps`, `termOps` and the operators of `parse_simpleexpr`
abbrev pub relation_ops : TokenType → Bool
relation_ops t =
    type_eq t equals
    || type_eq t hash
    || type_eq t less
    || type_eq t leq
    || type_eq t greater
    || type_eq t gteq
    || type_eq t kw_in

abbrev pub term_ops : TokenType → Bool
term_ops t =
    type_eq t asterix
    || type_eq t slash
    || type_eq t kw_div
    || type_eq t kw_mod
    || type_eq t ampersand

abbrev pub sign_ops : TokenType → Bool
sign_ops t = type_eq t plus || type_eq t dash

abbrev pub add_ops : TokenType → Bool
add_ops t = type_eq t plus || type_eq t dash || type_eq t kw_or

-- Whether a symbol is that of a procedure that the parser has seen.
unfoldable pub is_forward : Option Symbol → Bool
unfolding type_id
is_forward none = false
is_forward (some v) = id_eq (type_id v.type) TypeId.procedure_fwd

module _ (lib : Library) where
  abbrev pub sign_at : Token → Parse (Option TokenType)
  sign_at tok = if sign_ops tok.type then (do next lib; pure (some tok.type)) else pure none

  unfoldable mutual
    pub parse_expr : ℕ → Parse AstExpr
    parse_expr zero s = out_of_fuel
    parse_expr (suc f) s =
        (do
          e ← parse_simpleexpr f
          tok ← peek lib
          if relation_ops tok.type
              then (do next lib; d ← parse_simpleexpr f; pure (relation e tok.type d))
              else pure (plain e))
          s

    pub parse_simpleexpr : ℕ → Parse AstSimpleExpr
    parse_simpleexpr zero s = out_of_fuel
    parse_simpleexpr (suc f) s =
        (do
          tok ← peek lib
          sign ← sign_at tok
          t ← parse_term f
          rest ← parse_adds f
          pure (simple_expr sign t rest))
          s

    -- The loop of `parse_simpleexpr`.
    pub parse_adds : ℕ → Parse Adds
    parse_adds zero s = out_of_fuel
    parse_adds (suc f) s =
        (do
          tok ← peek lib
          if add_ops tok.type
              then (do next lib; t ← parse_term f; rest ← parse_adds f; pure (add tok.type t rest))
              else pure no_adds)
          s

    pub parse_term : ℕ → Parse AstTerm
    parse_term zero s = out_of_fuel
    parse_term (suc f) s = (do e ← parse_factor f; rest ← parse_mults f; pure (term e rest)) s

    -- The loop of `parse_term`.
    pub parse_mults : ℕ → Parse Mults
    parse_mults zero s = out_of_fuel
    parse_mults (suc f) s =
        (do
          tok ← peek lib
          if term_ops tok.type
              then (do
                next lib
                e ← parse_factor f
                rest ← parse_mults f
                pure (mult tok.type e rest))
              else pure no_mults)
          s

    pub parse_factor : ℕ → Parse AstFactor
    parse_factor zero s = out_of_fuel
    parse_factor (suc f) s = (do tok ← peek lib; factor_of f tok tok.type) s

    -- The cases of `parse_factor`.
    pub factor_of : ℕ → Token → TokenType → Parse AstFactor
    factor_of zero tok t = fuel_out
    factor_of (suc f) tok l_paren = do
      next lib
      e ← parse_expr f
      get_token lib r_paren
      pure (parenthesised e)
    factor_of (suc f) tok Token.integer = parse_integer lib
    factor_of (suc f) tok hexinteger = parse_integer lib
    factor_of (suc f) tok Token.real = parse_real lib
    factor_of (suc f) tok hexchr = parse_char lib
    factor_of (suc f) tok chr = parse_char lib
    factor_of (suc f) tok Token.string = parse_string lib
    factor_of (suc f) tok kw_true = parse_boolean lib
    factor_of (suc f) tok kw_false = parse_boolean lib
    factor_of (suc f) tok kw_nil = parse_nil lib
    factor_of (suc f) tok l_brace = do ls ← parse_set f; pure (set ls)
    factor_of (suc f) tok tilde = do next lib; e ← parse_factor f; pure (negation e)
    factor_of (suc f) tok ident = do
      d ← parse_designator f
      following ← peek lib
      name ← printed (print_designator lib.unicode d)
      res ← find name
      if is_type following l_paren || is_forward res
          then (do c ← parse_call f d; pure (called c))
          else pure (designated d)
    factor_of (suc f) tok _ = throw (codes "Unexpected token: " ++ token_text tok)

    pub parse_designator : ℕ → Parse AstDesignator
    parse_designator zero s = out_of_fuel
    parse_designator (suc f) s =
        (do q ← parse_qualident lib; sels ← parse_selectors f; pure (designator q sels)) s

    -- The loop of `parse_designator`, and its cases.
    pub parse_selectors : ℕ → Parse Selectors
    parse_selectors zero s = out_of_fuel
    parse_selectors (suc f) s = (do tok ← peek lib; selectors_of f tok.type) s

    pub selectors_of : ℕ → TokenType → Parse Selectors
    selectors_of zero t = fuel_out
    selectors_of (suc f) l_bracket = do
      next lib
      ref ← parse_indices f
      get_token lib r_bracket
      rest ← parse_selectors f
      pure (array_ref ref rest)
    selectors_of (suc f) period = do
      next lib
      id ← parse_identifier lib
      rest ← parse_selectors f
      pure (field_ref id rest)
    selectors_of (suc f) caret = do next lib; rest ← parse_selectors f; pure (pointer_ref rest)
    selectors_of (suc f) _ = pure no_selectors

    -- The loop on the indices of an array: it goes on without a comma, too.
    pub parse_indices : ℕ → Parse ArrayRef
    parse_indices zero s = out_of_fuel
    parse_indices (suc f) s =
        (do
          e ← parse_simpleexpr f
          tok ← peek lib
          if is_type tok comma
              then (do next lib; rest ← parse_indices f; pure (index e rest))
              else if is_type tok r_bracket
              then pure (index e no_indices)
              else do rest ← parse_indices f; pure (index e rest))
          s

    pub parse_call : ℕ → AstDesignator → Parse AstCall
    parse_call zero d s = out_of_fuel
    parse_call (suc f) d s =
        (do
          tok ← peek lib
          if is_type tok l_paren
              then (do
                get_token lib l_paren
                first ← peek lib
                args ← (if is_type first r_paren then pure no_exprs else parse_args f)
                get_token lib r_paren
                pure (call d args))
              else pure (call d no_exprs))
          s

    -- The loop on the arguments.
    pub parse_args : ℕ → Parse Exprs
    parse_args zero s = out_of_fuel
    parse_args (suc f) s =
        (do
          e ← parse_expr f
          tok ← peek lib
          if is_type tok r_paren
              then pure (argument e no_exprs)
              else if is_type tok comma
              then (do next lib; rest ← parse_args f; pure (argument e rest))
              else throw (codes "Unexpected " ++ tok.val ++ codes " expecting , or )"))
          s

    pub parse_set : ℕ → Parse Labels
    parse_set zero s = out_of_fuel
    parse_set (suc f) s =
        (do
          next lib
          tok ← peek lib
          ls ← (if is_type tok r_brace then pure no_labels else parse_elements f)
          next lib
          pure ls)
          s

    -- The loop on the elements of a set.
    pub parse_elements : ℕ → Parse Labels
    parse_elements zero s = out_of_fuel
    parse_elements (suc f) s =
        (do
          l ← parse_case_label f
          tok ← peek lib
          if is_type tok r_brace then pure (labelled l no_labels) else do
            get_token lib comma
            after ← peek lib
            rest ← (if is_type after r_brace then pure no_labels else parse_elements f)
            pure (labelled l rest))
          s

    -- `parse_caseLabel`; the text of the label, which is for a message alone, is computed there.
    pub parse_case_label : ℕ → Parse AstLabel
    parse_case_label zero s = out_of_fuel
    parse_case_label (suc f) s =
        (do
          e ← parse_simpleexpr f
          tok ← peek lib
          if is_type tok dotdot
              then (do
                next lib
                d ← parse_simpleexpr f
                printed (print_simple lib.unicode e)
                printed (print_simple lib.unicode d)
                pure (range e d))
              else do printed (print_simple lib.unicode e); pure (single e))
          s
