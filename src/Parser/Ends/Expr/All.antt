-- ===== src/Parser/Ends/Expr/All.antt =====
-- All of the procedures on expressions end: src/compiler/parser.cc.
use axcomp.Prelude.{ℕ, zero, suc, refl, arith}
use axcomp.Lexer.Unicode.{IsUnicode}
use axcomp.Parser.State.{Library}
use axcomp.Parser.Ends.{no_fuel}
use axcomp.Parser.Ends.Expr.{ExprEnds}
use axcomp.Parser.Ends.Expr.Operators.{
  parse_expr-Takes, parse_simpleexpr-Takes, parse_adds-Takes, parse_term-Takes, parse_mults-Takes,
  parse_factor-Takes, factor_of-Sees,
}
use axcomp.Parser.Ends.Expr.Designators.{
  parse_designator-Takes, parse_selectors-Takes, selectors_of-Sees, parse_indices-Takes,
  parse_call-Takes, parse_args-Takes, parse_set-Sees, parse_elements-Takes, parse_case_label-Takes,
}

module _ (lib : Library) (good : IsUnicode lib.unicode) where
  ExprEnds-suc : (f : ℕ) → ExprEnds lib good f → ExprEnds lib good (suc f)
  ExprEnds-suc f below = record {
    expr = parse_expr-Takes lib good f below;
    simpleexpr = parse_simpleexpr-Takes lib good f below;
    adds = parse_adds-Takes lib good f below;
    term = parse_term-Takes lib good f below;
    mults = parse_mults-Takes lib good f below;
    factor = parse_factor-Takes lib good f below;
    factor_case = λ n tok. factor_of-Sees lib good f below n tok tok.type refl;
    designator = parse_designator-Takes lib good f below;
    selectors = parse_selectors-Takes lib good f below;
    selectors_case = λ n tok. selectors_of-Sees lib good f below n tok tok.type refl;
    indices = parse_indices-Takes lib good f below;
    call = parse_call-Takes lib good f below;
    args = parse_args-Takes lib good f below;
    set = parse_set-Sees lib good f below;
    elements = parse_elements-Takes lib good f below;
    case_label = parse_case_label-Takes lib good f below;
  }

  -- Expressions end.
  pub expressions-end : (f : ℕ) → ExprEnds lib good f
  expressions-end zero = record {
    expr = λ n h. no_fuel _ (omega arith) h;
    simpleexpr = λ n h. no_fuel _ (omega arith) h;
    adds = λ n h. no_fuel _ (omega arith) h;
    term = λ n h. no_fuel _ (omega arith) h;
    mults = λ n h. no_fuel _ (omega arith) h;
    factor = λ n h. no_fuel _ (omega arith) h;
    factor_case = λ n tok h. no_fuel _ (omega arith) h;
    designator = λ n h. no_fuel _ (omega arith) h;
    selectors = λ n h. no_fuel _ (omega arith) h;
    selectors_case = λ n tok h. no_fuel _ (omega arith) h;
    indices = λ n h. no_fuel _ (omega arith) h;
    call = λ n d h. no_fuel _ (omega arith) h;
    args = λ n h. no_fuel _ (omega arith) h;
    set = λ n tok one h. no_fuel _ (omega arith) h;
    elements = λ n h. no_fuel _ (omega arith) h;
    case_label = λ n h. no_fuel _ (omega arith) h;
  }
  expressions-end (suc f) = ExprEnds-suc f (expressions-end f)
