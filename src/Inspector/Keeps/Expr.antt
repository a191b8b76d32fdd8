-- ===== src/Inspector/Keeps/Expr.antt =====
-- What the visits of expressions keep: src/compiler/inspector.cc.
use axcomp.Prelude.{ℕ, Bool, true, List, [], ◌∷◌, Option, none, some, Text}
use axcomp.Error.{err, invalid_code_point, ok}
use axcomp.Token.{TokenType}
use axcomp.Lexer.Unicode.{Unicode}
use axcomp.Types.{TypeNode}
use axcomp.Ast.Expr.{
  AstQualident, AstExpr, plain, relation, AstSimpleExpr, simple_expr, Adds, no_adds, add, AstTerm,
  term, Mults, no_mults, mult, AstFactor, designated, integer, real, parenthesised, called, boolean,
  character, string, set, nil, negation, AstDesignator, designator, Selectors, no_selectors,
  array_ref, field_ref, pointer_ref, ArrayRef, no_indices, index, AstCall, call, Exprs, no_exprs,
  argument, Labels, no_labels, labelled, AstLabel, single, range,
}
use axcomp.Printer.Expr.{print_expr}
use axcomp.Inspector.State.{State}
use axcomp.Inspector.Expr.{
  printed, constant, operated, operate, both_const, negated, bounded, stepped, check_element,
  visit_expr, visit_simple, visit_adds, visit_term, visit_mults, visit_factor, visit_labels,
  visit_label, visit_designator, visit_selectors, visit_indices, visit_call, visit_callee,
  visit_args, visit_cast,
}
use axcomp.Inspector.Keeps.{Keeps, Later, Later_refl, Leaves, leaves, faults}
use axcomp.Inspector.Keeps.Parts.{parts_rules}

pub printed-Keeps : (u : Unicode) (e : AstExpr) → Keeps (printed u e)
unfolding printed
printed-Keeps u e = record { at = λ s. by_text s (print_expr u e) }
  where
    by_text :
        (s : State) (o : Option Text)
        → Leaves (Later s) (elim o [ none ↦ err invalid_code_point | some t ↦ ok (some t, s) ])
    by_text s none = faults
    by_text s (some t) = leaves (Later_refl s)

constant-Keeps : (t : ℕ) → Keeps (constant t)
unfolding constant
constant-Keeps t = search parts_rules

operated-Keeps : (op : TokenType) (t : Option ℕ) → Keeps (operated op t)
operated-Keeps op none = search parts_rules
operated-Keeps op (some t) = search parts_rules

operate-Keeps : (f : ℕ) (op : TokenType) (l : Option ℕ) → Keeps (operate f op l)
unfolding operate
operate-Keeps f op l = search (parts_rules, operated-Keeps)

both_const-Keeps : (c : Bool) → Keeps (both_const c)
unfolding both_const
both_const-Keeps c = search parts_rules

negated-Keeps : (t : Option ℕ) → Keeps (negated t)
unfolding negated
negated-Keeps none = search parts_rules
negated-Keeps (some t) = search parts_rules

bounded-Keeps : (u : Unicode) (f : ℕ) (name : Text) (es : Exprs) → Keeps (bounded u f name es)
unfolding bounded
bounded-Keeps u f name es = search (parts_rules, printed-Keeps) depth 9

stepped-Keeps : (name : Text) (t : Option ℕ) → Keeps (stepped name t)
unfolding stepped
stepped-Keeps name t = search parts_rules

check_element-Keeps : (f : ℕ) (c : Bool) → Keeps (check_element f c)
unfolding check_element
check_element-Keeps f c = search parts_rules depth 9

ruleset expr_rules = (
  parts_rules, printed-Keeps, constant-Keeps, operate-Keeps, both_const-Keeps, negated-Keeps,
  bounded-Keeps, stepped-Keeps, check_element-Keeps,
)

mutual
  unfolding visit_expr

  pub visit_expr-Keeps : (u : Unicode) (f : ℕ) (e : AstExpr) → Keeps (visit_expr u f e)
  visit_expr-Keeps u f (plain e) = let h = visit_simple-Keeps u f e in search expr_rules
  visit_expr-Keeps u f (relation e op d) =
      let h = visit_simple-Keeps u f e in
      let g = visit_simple-Keeps u f d in search expr_rules depth 12

  pub visit_simple-Keeps : (u : Unicode) (f : ℕ) (e : AstSimpleExpr) → Keeps (visit_simple u f e)
  visit_simple-Keeps u f (simple_expr sign t rest) =
      let h = visit_term-Keeps u f t in
      let g : (l : Option ℕ) (c : Bool) → Keeps (visit_adds u f l c rest) =
        λ l c. visit_adds-Keeps u f l c rest in
      search expr_rules depth 9

  visit_adds-Keeps :
      (u : Unicode) (f : ℕ) (l : Option ℕ) (c : Bool) (es : Adds) → Keeps (visit_adds u f l c es)
  visit_adds-Keeps u f l c no_adds = search expr_rules
  visit_adds-Keeps u f l c (add op t rest) =
      let h = visit_term-Keeps u f t in
      let g : (l : Option ℕ) (c : Bool) → Keeps (visit_adds u f l c rest) =
        λ m d. visit_adds-Keeps u f m d rest in
      search expr_rules depth 12

  visit_term-Keeps : (u : Unicode) (f : ℕ) (t : AstTerm) → Keeps (visit_term u f t)
  visit_term-Keeps u f (term e rest) =
      let h = visit_factor-Keeps u f e in
      let g : (l : Option ℕ) (c : Bool) → Keeps (visit_mults u f l c rest) =
        λ l c. visit_mults-Keeps u f l c rest in
      search expr_rules depth 9

  visit_mults-Keeps :
      (u : Unicode) (f : ℕ) (l : Option ℕ) (c : Bool) (es : Mults) → Keeps (visit_mults u f l c es)
  visit_mults-Keeps u f l c no_mults = search expr_rules
  visit_mults-Keeps u f l c (mult op e rest) =
      let h = visit_factor-Keeps u f e in
      let g : (l : Option ℕ) (c : Bool) → Keeps (visit_mults u f l c rest) =
        λ m d. visit_mults-Keeps u f m d rest in
      search expr_rules depth 12

  visit_factor-Keeps : (u : Unicode) (f : ℕ) (e : AstFactor) → Keeps (visit_factor u f e)
  visit_factor-Keeps u f (designated d) = visit_designator-Keeps u f d
  visit_factor-Keeps u f (integer n hex) = search expr_rules
  visit_factor-Keeps u f (real v style) = search expr_rules
  visit_factor-Keeps u f (parenthesised e) = let h = visit_expr-Keeps u f e in search expr_rules
  visit_factor-Keeps u f (called c) = let h = visit_call-Keeps u f c in search expr_rules
  visit_factor-Keeps u f (boolean b) = search expr_rules
  visit_factor-Keeps u f (character n hex) = search expr_rules
  visit_factor-Keeps u f (string s delim) = search expr_rules
  visit_factor-Keeps u f (set ls) =
      let h = visit_labels-Keeps u f true ls in search expr_rules depth 9
  visit_factor-Keeps u f nil = search expr_rules
  visit_factor-Keeps u f (negation e) =
      let h = visit_factor-Keeps u f e in search expr_rules depth 9

  visit_labels-Keeps :
      (u : Unicode) (f : ℕ) (c : Bool) (ls : Labels) → Keeps (visit_labels u f c ls)
  visit_labels-Keeps u f c no_labels = search expr_rules
  visit_labels-Keeps u f c (labelled l ls) =
      let h = visit_label-Keeps u f c l in
      let g : (d : Bool) → Keeps (visit_labels u f d ls) = λ d. visit_labels-Keeps u f d ls in
      search expr_rules depth 9

  visit_label-Keeps : (u : Unicode) (f : ℕ) (c : Bool) (l : AstLabel) → Keeps (visit_label u f c l)
  visit_label-Keeps u f c (single e) = let h = visit_simple-Keeps u f e in search expr_rules depth 9
  visit_label-Keeps u f c (range e d) =
      let h = visit_simple-Keeps u f e in
      let g = visit_simple-Keeps u f d in search expr_rules depth 9

  pub visit_designator-Keeps :
      (u : Unicode) (f : ℕ) (d : AstDesignator) → Keeps (visit_designator u f d)
  visit_designator-Keeps u f (designator q sels) =
      let h : (m : TypeNode) → Keeps (visit_selectors u f q m sels) =
        λ n. visit_selectors-Keeps u f q n sels in
      search expr_rules depth 12

  visit_selectors-Keeps :
      (u : Unicode) (f : ℕ) (q : AstQualident) (n : TypeNode) (sels : Selectors)
      → Keeps (visit_selectors u f q n sels)
  visit_selectors-Keeps u f q n no_selectors = search expr_rules
  visit_selectors-Keeps u f q n (array_ref is sels) =
      let h = visit_indices-Keeps u f is in
      let g : (m : TypeNode) → Keeps (visit_selectors u f q m sels) =
        λ m. visit_selectors-Keeps u f q m sels in
      search expr_rules depth 12
  visit_selectors-Keeps u f q n (field_ref field sels) =
      let h : (m : TypeNode) → Keeps (visit_selectors u f q m sels) =
        λ m. visit_selectors-Keeps u f q m sels in
      search expr_rules depth 12
  visit_selectors-Keeps u f q n (pointer_ref sels) =
      let h : (m : TypeNode) → Keeps (visit_selectors u f q m sels) =
        λ m. visit_selectors-Keeps u f q m sels in
      search expr_rules depth 12

  visit_indices-Keeps : (u : Unicode) (f : ℕ) (is : ArrayRef) → Keeps (visit_indices u f is)
  visit_indices-Keeps u f no_indices = search expr_rules
  visit_indices-Keeps u f (index e is) =
      let h = visit_simple-Keeps u f e in
      let g = visit_indices-Keeps u f is in search expr_rules depth 9

  pub visit_call-Keeps : (u : Unicode) (f : ℕ) (c : AstCall) → Keeps (visit_call u f c)
  visit_call-Keeps u f (call d es) =
      let h = visit_callee-Keeps u f d in
      let g : (name : Text) (skip : Bool) (ps : List (ℕ × Bool))
          → Keeps (visit_args u f name skip ps es) =
        λ name skip ps. visit_args-Keeps u f name skip ps es in
      let k = visit_cast-Keeps u f es in search expr_rules depth 16

  visit_callee-Keeps : (u : Unicode) (f : ℕ) (d : AstDesignator) → Keeps (visit_callee u f d)
  visit_callee-Keeps u f (designator q sels) = search expr_rules depth 9

  visit_args-Keeps :
      (u : Unicode) (f : ℕ) (name : Text) (skip : Bool) (ps : List (ℕ × Bool)) (es : Exprs)
      → Keeps (visit_args u f name skip ps es)
  visit_args-Keeps u f name skip ps no_exprs = search expr_rules
  visit_args-Keeps u f name skip [] (argument e es) =
      let h = visit_expr-Keeps u f e in search expr_rules depth 12
  visit_args-Keeps u f name skip ((param, is_var) ∷ ps) (argument e es) =
      let h = visit_expr-Keeps u f e in
      let g = visit_args-Keeps u f name skip ps es in search expr_rules depth 12

  visit_cast-Keeps : (u : Unicode) (f : ℕ) (es : Exprs) → Keeps (visit_cast u f es)
  visit_cast-Keeps u f no_exprs = search expr_rules
  visit_cast-Keeps u f (argument e no_exprs) = search expr_rules
  visit_cast-Keeps u f (argument e (argument d no_exprs)) =
      let h = visit_expr-Keeps u f d in search expr_rules depth 14
  visit_cast-Keeps u f (argument e (argument d (argument c es))) = search expr_rules
