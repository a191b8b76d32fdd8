-- ===== src/Parser/Ends/Expr.antt =====
-- Expressions end: src/compiler/parser.cc. A call takes fuel by what is left to read, twenty for each
-- token, and by the calls that it makes before a token is taken.
pub mod Operators
pub mod Designators
pub mod All
use axcomp.Prelude.{
  ℕ, zero, suc, ◌+◌, ◌*◌, ◌≤◌, ◌≡◌, refl, arith, true, ◌||◌, Option, none, some, Text,
}
use axcomp.Error.{throws}
use axcomp.Token.{
  TokenType, Token, type_eq, l_paren, r_paren, hexinteger, chr, hexchr, comma, kw_true, kw_false,
  kw_nil, l_brace, r_brace, tilde, ident, l_bracket, r_bracket, period, caret, dotdot,
}
use axcomp.Token
use axcomp.Lexer.Unicode.{IsUnicode}
use axcomp.Lexer.State.{weight}
use axcomp.Ast.Expr.{AstDesignator}
use axcomp.Parser.State.{Library, printed, is_type}
use axcomp.Parser.Expr.{
  relation_ops, term_ops, sign_ops, add_ops, is_forward, sign_at, parse_expr, parse_simpleexpr,
  parse_adds, parse_term, parse_mults, parse_factor, factor_of, parse_designator, parse_selectors,
  selectors_of, parse_indices, parse_call, parse_args, parse_set, parse_elements, parse_case_label,
}
use axcomp.Parser.Ends.{
  no_fuel, Takes, Sees, Takes-pure, Takes-bind, Takes-le, Takes-throw, Takes-if, Sees-if, Sees-any,
  Sees-bind,
}
use axcomp.Parser.Ends.Tables.{find-Takes}
use axcomp.Parser.Ends.Tokens.{weight-of, next-Takes, Sees-next, Takes-peek, get_token-Takes}
use axcomp.Parser.Ends.Basic.{
  parse_identifier-Takes, parse_qualident-Takes, parse_integer-Takes, parse_real-Sees,
  parse_char-Sees, parse_string-Sees, parse_boolean-Sees, parse_nil-Takes,
}

module _ (lib : Library) (good : IsUnicode lib.unicode) where
  -- What holds of each procedure on fuel `f`.
  pub record ExprEnds (f : ℕ) : Type 0 where
    pub expr : (n : ℕ) → 20 * n + 6 ≤ f → Takes n 1 (parse_expr lib f)
    pub simpleexpr : (n : ℕ) → 20 * n + 5 ≤ f → Takes n 1 (parse_simpleexpr lib f)
    pub adds : (n : ℕ) → 20 * n + 1 ≤ f → Takes n 0 (parse_adds lib f)
    pub term : (n : ℕ) → 20 * n + 4 ≤ f → Takes n 1 (parse_term lib f)
    pub mults : (n : ℕ) → 20 * n + 1 ≤ f → Takes n 0 (parse_mults lib f)
    pub factor : (n : ℕ) → 20 * n + 3 ≤ f → Takes n 1 (parse_factor lib f)
    pub factor_case :
        (n : ℕ) (tok : Token) → 20 * n + 2 ≤ f → Sees tok n 1 (factor_of lib f tok tok.type)
    pub designator : (n : ℕ) → 20 * n + 1 ≤ f → Takes n 1 (parse_designator lib f)
    pub selectors : (n : ℕ) → 20 * n + 2 ≤ f → Takes n 0 (parse_selectors lib f)
    pub selectors_case :
        (n : ℕ) (tok : Token) → 20 * n + 1 ≤ f → Sees tok n 0 (selectors_of lib f tok.type)
    pub indices : (n : ℕ) → 20 * n + 6 ≤ f → Takes n 1 (parse_indices lib f)
    pub call : (n : ℕ) (d : AstDesignator) → 20 * n + 1 ≤ f → Takes n 0 (parse_call lib f d)
    pub args : (n : ℕ) → 20 * n + 7 ≤ f → Takes n 1 (parse_args lib f)
    pub set :
        (n : ℕ) (tok : Token) → weight tok ≡ 1 → 20 * n + 1 ≤ f → Sees tok n 1 (parse_set lib f)
    pub elements : (n : ℕ) → 20 * n + 7 ≤ f → Takes n 1 (parse_elements lib f)
    pub case_label : (n : ℕ) → 20 * n + 6 ≤ f → Takes n 1 (parse_case_label lib f)
