-- ===== src/Inspector/Keeps/TypeExpr.antt =====
-- What the visits of types, and the evaluation of constants, keep: src/compiler/inspector.cc.
use axcomp.Prelude.{ℕ, ◌+◌, refl, Bool, true, false, List, [], ◌∷◌, ◌++◌, Option, none, some, Text}
use axcomp.Error.{err, invalid_code_point, ok, out_of_fuel, Result}
use axcomp.Error
use axcomp.Lexer.Unicode.{Unicode}
use axcomp.Types.{
  TypeNode, RecordNode, simple, enumerated, array_of, open_array_of, record_of, pointer_to,
  procedure_of, forward_of, alias_of, module_of,
}
use axcomp.Ast.Expr.{
  AstIdentifier, AstQualident, AstExpr, plain, relation, AstSimpleExpr, simple_expr, Adds, no_adds,
  add, AstTerm, term, Mults, no_mults, mult, AstFactor, designated, integer, real, parenthesised,
  called, boolean, character, string, set, nil, negation, AstDesignator, designator, no_selectors,
  array_ref, field_ref, pointer_ref, ArrayRef, no_indices, index,
}
use axcomp.Ast.TypeExpr.{AstType, Fields, no_fields, field}
use axcomp.Printer.TypeExpr.{print_type}
use axcomp.Inspector.State.{State, Inspect}
use axcomp.Inspector.Fold.{
  const_symbol, eval_designator, eval_expr, eval_simple, eval_adds, eval_term, eval_mults,
  eval_factor,
}
use axcomp.Inspector.TypeExpr.{
  put_last, dimension, visit_dimensions, base_node, visit_base, add_field, visit_value,
  visit_values, caught, attempt, text_of, type_text, pointer_node, visit_name, visit_type,
  visit_fields,
}
use axcomp.Inspector.Keeps.{
  Keeps, Later, Later_refl, Later-same, Leaves, leaves, faults, unfinished,
}
use axcomp.Inspector.Keeps.Tables.{Keeps-change}
use axcomp.Inspector.Keeps.Parts.{parts_rules}
use axcomp.Inspector.Keeps.Expr.{visit_simple-Keeps}

const_symbol-Keeps : (o : Option ℕ) → Keeps (const_symbol o)
const_symbol-Keeps none = search parts_rules
const_symbol-Keeps (some i) = search parts_rules

eval_designator-Keeps : (d : AstDesignator) → Keeps (eval_designator d)
unfolding eval_designator
eval_designator-Keeps (designator q no_selectors) = search (parts_rules, const_symbol-Keeps) depth 9
eval_designator-Keeps (designator q (array_ref is sels)) = search parts_rules
eval_designator-Keeps (designator q (field_ref id sels)) = search parts_rules
eval_designator-Keeps (designator q (pointer_ref sels)) = search parts_rules

mutual
  unfolding eval_expr

  pub eval_expr-Keeps : (e : AstExpr) → Keeps (eval_expr e)
  eval_expr-Keeps (plain e) = eval_simple-Keeps e
  eval_expr-Keeps (relation e op d) = search parts_rules

  pub eval_simple-Keeps : (e : AstSimpleExpr) → Keeps (eval_simple e)
  eval_simple-Keeps (simple_expr sign t rest) =
      let h = eval_term-Keeps t in
      let g : (n : ℕ) → Keeps (eval_adds n rest) = λ n. eval_adds-Keeps n rest in
      search parts_rules depth 9

  eval_adds-Keeps : (n : ℕ) (es : Adds) → Keeps (eval_adds n es)
  eval_adds-Keeps n no_adds = search parts_rules
  eval_adds-Keeps n (add op t rest) =
      let h = eval_term-Keeps t in
      let g : (n : ℕ) → Keeps (eval_adds n rest) = λ n. eval_adds-Keeps n rest in
      search parts_rules depth 9

  eval_term-Keeps : (t : AstTerm) → Keeps (eval_term t)
  eval_term-Keeps (term e rest) =
      let h = eval_factor-Keeps e in
      let g : (n : ℕ) → Keeps (eval_mults n rest) = λ n. eval_mults-Keeps n rest in
      search parts_rules depth 9

  eval_mults-Keeps : (n : ℕ) (es : Mults) → Keeps (eval_mults n es)
  eval_mults-Keeps n no_mults = search parts_rules
  eval_mults-Keeps n (mult op e rest) =
      let h = eval_factor-Keeps e in
      let g : (n : ℕ) → Keeps (eval_mults n rest) = λ n. eval_mults-Keeps n rest in
      search parts_rules depth 9

  eval_factor-Keeps : (e : AstFactor) → Keeps (eval_factor e)
  eval_factor-Keeps (designated d) = eval_designator-Keeps d
  eval_factor-Keeps (integer n hex) = search parts_rules
  eval_factor-Keeps (real v style) = search parts_rules
  eval_factor-Keeps (parenthesised e) = eval_expr-Keeps e
  eval_factor-Keeps (called c) = search parts_rules
  eval_factor-Keeps (boolean b) = search parts_rules
  eval_factor-Keeps (character n hex) = search parts_rules
  eval_factor-Keeps (string s delim) = search parts_rules
  eval_factor-Keeps (set ls) = search parts_rules
  eval_factor-Keeps nil = search parts_rules
  eval_factor-Keeps (negation e) = search parts_rules

put_last-Keeps : (t : ℕ) → Keeps (put_last t)
unfolding put_last
put_last-Keeps t = search parts_rules

dimension-Keeps : (i : ℕ) (ds : List ℕ) (d : Option ℕ) → Keeps (dimension i ds d)
dimension-Keeps i ds none = search parts_rules
dimension-Keeps i ds (some d) = search parts_rules

visit_dimensions-Keeps :
    (u : Unicode) (f i : ℕ) (ds : List ℕ) (es : ArrayRef) → Keeps (visit_dimensions u f i ds es)
unfolding visit_dimensions
visit_dimensions-Keeps u f i ds no_indices = search parts_rules
visit_dimensions-Keeps u f i ds (index e es) =
    let h = visit_simple-Keeps u f e in
    let g = eval_simple-Keeps e in
    let k : (ds : List ℕ) → Keeps (visit_dimensions u f (i + 1) ds es) =
      λ ds. visit_dimensions-Keeps u f (i + 1) ds es in
    search (parts_rules, dimension-Keeps) depth 12

base_node-Keeps : (name : Text) (t : ℕ) (n : TypeNode) → Keeps (base_node name t n)
base_node-Keeps name t (array_of b ds) = search parts_rules
base_node-Keeps name t (open_array_of b ds) = search parts_rules
base_node-Keeps name t (simple i s) = search parts_rules
base_node-Keeps name t (enumerated s vs) = search parts_rules
base_node-Keeps name t (record_of r) = search parts_rules
base_node-Keeps name t (pointer_to r s) = search parts_rules
base_node-Keeps name t (procedure_of p) = search parts_rules
base_node-Keeps name t (forward_of p) = search parts_rules
base_node-Keeps name t (alias_of s i) = search parts_rules
base_node-Keeps name t (module_of s) = search parts_rules

visit_base-Keeps : (f : ℕ) (q : Option AstQualident) → Keeps (visit_base f q)
unfolding visit_base
visit_base-Keeps f none = search parts_rules
visit_base-Keeps f (some q) = search (parts_rules, base_node-Keeps) depth 9

add_field-Keeps : (name : Text) (t : ℕ) (r : RecordNode) (b : Bool) → Keeps (add_field name t r b)
add_field-Keeps name t r true = search parts_rules
add_field-Keeps name t r false = search parts_rules

visit_value-Keeps : (t : ℕ) (name : Text) (o : Option ℕ) → Keeps (visit_value t name o)
visit_value-Keeps t name none = search parts_rules
visit_value-Keeps t name (some i) = search parts_rules

visit_values-Keeps : (t : ℕ) (ids : List AstIdentifier) → Keeps (visit_values t ids)
unfolding visit_values
visit_values-Keeps t [] = search parts_rules
visit_values-Keeps t (id ∷ ids) =
    let h = visit_values-Keeps t ids in search (parts_rules, visit_value-Keeps) depth 9

attempt-Keeps : (m : Inspect (Unit {0})) → Keeps m → Keeps (attempt m)
unfolding attempt
attempt-Keeps m h = record { at = λ s. after s (m s) (h.at s) }
  where
    after :
        (s : State) (r : Result (Option (Unit {0}) × State))
        → Leaves (Later s) r
        → Leaves (Later s) (Error.◌>>=◌ r λ o. ok (caught o))
    after s (ok (none, t)) (leaves h) = leaves h
    after s (ok (some a, t)) (leaves h) = leaves h
    after s (err e) h = faults
    after s out_of_fuel h = unfinished

type_text-Keeps : (u : Unicode) (t : AstType) → Keeps (type_text u t)
unfolding type_text
type_text-Keeps u t = record { at = λ s. by_text s (text_of (print_type u 0 t 0)) }
  where
    by_text :
        (s : State) (o : Option Text)
        → Leaves
            (Later s)
            (elim o [ none ↦ err invalid_code_point | some name ↦ ok (some name, s) ])
    by_text s none = faults
    by_text s (some t) = leaves (Later_refl s)

pointer_node-Keeps : (name : Text) (b : Bool) → Keeps (pointer_node name b)
unfolding pointer_node
pointer_node-Keeps name true = search parts_rules
pointer_node-Keeps name false = search parts_rules

visit_name-Keeps : (t : Option ℕ) → Keeps (visit_name t)
unfolding visit_name
visit_name-Keeps none = search parts_rules
visit_name-Keeps (some t) = search parts_rules

pointer_types-Keeps :
    (t : ℕ)
    → Keeps
        (axcomp.Inspector.State.change λ s. record s { pointer_types = s.pointer_types ++ t ∷ [] })
pointer_types-Keeps t = Keeps-change _ λ s. Later-same s _ refl refl refl refl

ruleset type_rules = (
  parts_rules, put_last-Keeps, visit_dimensions-Keeps, visit_base-Keeps, add_field-Keeps,
  visit_values-Keeps, attempt-Keeps, type_text-Keeps, pointer_node-Keeps, visit_name-Keeps,
  pointer_types-Keeps,
)

mutual
  unfolding visit_type

  pub visit_type-Keeps : (u : Unicode) (f : ℕ) (t : AstType) → Keeps (visit_type u f t)
  visit_type-Keeps u f (AstType.named q) = search type_rules
  visit_type-Keeps u f (AstType.array dims t) =
      let h = visit_type-Keeps u f t in search type_rules depth 9
  visit_type-Keeps u f (AstType.record_type base fs) =
      let h : (r : RecordNode) → Keeps (visit_fields u f r fs) = λ r. visit_fields-Keeps u f r fs in
      search type_rules depth 9
  visit_type-Keeps u f (AstType.pointer_to t) =
      let h = visit_type-Keeps u f t in search type_rules depth 9
  visit_type-Keeps u f (AstType.enumeration ids) = search type_rules depth 9

  visit_fields-Keeps :
      (u : Unicode) (f : ℕ) (r : RecordNode) (fs : Fields) → Keeps (visit_fields u f r fs)
  visit_fields-Keeps u f r no_fields = search type_rules
  visit_fields-Keeps u f r (field id t rest) =
      let h = visit_type-Keeps u f t in
      let g : (r : RecordNode) → Keeps (visit_fields u f r rest) =
        λ r. visit_fields-Keeps u f r rest in
      search type_rules depth 9
