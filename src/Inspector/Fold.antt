-- ===== src/Inspector/Fold.antt =====
-- Constant integers: the functions `eval_const_int` of src/compiler/inspector.cc.
use axcomp.Prelude.{ℕ, Option, none, some, if◌then◌else◌, ◌==◌}
use axcomp.Token.{TokenType, type_eq, dash, asterix, kw_div, kw_mod}
use axcomp.Token
use axcomp.Error.{Result, ok}
use axcomp.Error
use axcomp.Attr.{cnst, has_attr}
use axcomp.Ast.Expr.{
  AstExpr, plain, relation, AstSimpleExpr, simple_expr, Adds, no_adds, add, AstTerm, term, Mults,
  no_mults, mult, AstFactor, designated, integer, real, parenthesised, called, boolean, character,
  string, set, nil, negation, AstDesignator, designator, no_selectors, array_ref, field_ref,
  pointer_ref,
}
use axcomp.Inspector.State.{reading, on_option, Inspect, ◌>>=◌, pure, find, symbol}
use axcomp.Inspector.Words.{negate, plus, minus, times, quotient, remainder}
use axcomp.Inspector.Names.{get_qualident, rewritten}

-- A computation that goes on where there is a value.
infixl 5 ◌>?◌
abbrev pub ◌>?◌ :
    {A B : Type 0} → Inspect (Option A) → (A → Inspect (Option B)) → Inspect (Option B)
m >? k = m >>= λ o. on_option o (pure none) k

abbrev pub signed_value : Option TokenType → ℕ → ℕ
signed_value none n = n
signed_value (some t) n = if type_eq t dash then negate n else n

-- One operator; none for one that is not folded, and for a division by zero.
unfoldable pub fold_add : TokenType → ℕ → ℕ → Option ℕ
fold_add op a b =
    if type_eq op Token.plus
    then some (plus a b)
    else if type_eq op dash
    then some (minus a b)
    else none

abbrev pub known : Result ℕ → Result (Option ℕ)
known r = Error.◌>>=◌ r λ n. ok (some n)

unfoldable pub fold_mult : TokenType → ℕ → ℕ → Result (Option ℕ)
fold_mult op a b =
    if type_eq op asterix
    then ok (some (times a b))
    else if type_eq op kw_div
    then (if b == 0 then ok none else known (quotient a b))
    else if type_eq op kw_mod
    then (if b == 0 then ok none else known (remainder a b))
    else ok none

-- `eval_const_int(ASTDesignator)`
abbrev pub const_symbol : Option ℕ → Inspect (Option ℕ)
const_symbol none = pure none
const_symbol (some i) = do
  v ← symbol i
  pure (if has_attr cnst v.attrs then v.const_value else none)

unfoldable pub eval_designator : AstDesignator → Inspect (Option ℕ)
eval_designator (designator q no_selectors) = do
  q' ← rewritten q
  name ← get_qualident q'
  res ← find name
  const_symbol res
eval_designator (designator q (array_ref _ _)) = pure none
eval_designator (designator q (field_ref _ _)) = pure none
eval_designator (designator q (pointer_ref _)) = pure none

unfoldable mutual
  pub eval_expr : AstExpr → Inspect (Option ℕ)
  eval_expr (plain e) = eval_simple e
  eval_expr (relation e op d) = pure none

  pub eval_simple : AstSimpleExpr → Inspect (Option ℕ)
  eval_simple (simple_expr sign t rest) = eval_term t >? λ n. eval_adds (signed_value sign n) rest

  pub eval_adds : ℕ → Adds → Inspect (Option ℕ)
  eval_adds n no_adds = pure (some n)
  eval_adds n (add op t rest) = eval_term t >? λ m. pure (fold_add op n m) >? λ k. eval_adds k rest

  pub eval_term : AstTerm → Inspect (Option ℕ)
  eval_term (term e rest) = eval_factor e >? λ n. eval_mults n rest

  pub eval_mults : ℕ → Mults → Inspect (Option ℕ)
  eval_mults n no_mults = pure (some n)
  eval_mults n (mult op e rest) =
      eval_factor e >? λ m. reading (λ _. fold_mult op n m) >? λ k. eval_mults k rest

  pub eval_factor : AstFactor → Inspect (Option ℕ)
  eval_factor (designated d) = eval_designator d
  eval_factor (integer n hex) = pure (some n)
  eval_factor (real v style) = pure none
  eval_factor (parenthesised e) = eval_expr e
  eval_factor (called c) = pure none
  eval_factor (boolean b) = pure none
  eval_factor (character n hex) = pure none
  eval_factor (string s delim) = pure none
  eval_factor (set ls) = pure none
  eval_factor nil = pure none
  eval_factor (negation e) = pure none
