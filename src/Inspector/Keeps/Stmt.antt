-- ===== src/Inspector/Keeps/Stmt.antt =====
-- What the visits of statements keep: src/compiler/inspector.cc.
use axcomp.Prelude.{ℕ, Option, none, some, Text}
use axcomp.Lexer.Unicode.{Unicode}
use axcomp.Importer.{Symbol}
use axcomp.Ast.Expr.{
  AstQualident, AstExpr, AstSimpleExpr, designator, Labels, no_labels, labelled, AstLabel, single,
  range,
}
use axcomp.Ast.TypeExpr.{AstType}
use axcomp.Ast.Decl.{AstProc}
use axcomp.Ast.Stmt.{
  AstStatement, assignment, return_stat, exit, call_stat, if_stat, case_stat, for_stat, while_stat,
  repeat_stat, loop, block, Statements, no_stats, stat, Elsifs, no_elsifs, elsif, ElseClause,
  no_else, else_clause, CaseElements, no_elements, element,
}
use axcomp.Inspector.State.{Complaint}
use axcomp.Inspector.Stmt.{
  assigned, may_assign, assignable, check_assignment, check_assigned, resolved_last, visit_returned,
  check_return, return_value, visit_value, visit_condition, is_case_compatible, check_label,
  visit_case_label, visit_case_labels, visit_bound, visit_by, index_type, check_index,
  visit_statement, visit_stats, visit_elsifs, visit_else, visit_elements,
}
use axcomp.Inspector.Keeps.{Keeps}
use axcomp.Inspector.Keeps.Parts.{parts_rules}
use axcomp.Inspector.Keeps.Expr.{
  visit_expr-Keeps, visit_simple-Keeps, visit_designator-Keeps, visit_call-Keeps,
}
use axcomp.Inspector.Keeps.TypeExpr.{visit_type-Keeps}

ruleset expr_rules = (
  parts_rules, visit_expr-Keeps, visit_simple-Keeps, visit_designator-Keeps, visit_call-Keeps,
  visit_type-Keeps,
)

assigned-Keeps : (q : AstQualident) (i : ℕ) (v : Symbol) → Keeps (assigned q i v)
assigned-Keeps q i v = search parts_rules

may_assign-Keeps : (q : AstQualident) → Keeps (may_assign q)
unfolding may_assign
may_assign-Keeps q = search (parts_rules, assigned-Keeps)

assignable-Keeps : (f i : ℕ) (t r : Option ℕ) → Keeps (assignable f i t r)
assignable-Keeps f i t none = search parts_rules
assignable-Keeps f i t (some r) = search parts_rules

check_assignment-Keeps :
    (f : ℕ) (q : AstQualident) (v : Option ℕ) (t : ℕ) → Keeps (check_assignment f q v t)
unfolding check_assignment
check_assignment-Keeps f q v t = search (parts_rules, assignable-Keeps) depth 9

check_assigned-Keeps : (f : ℕ) (q : AstQualident) (v t : Option ℕ) → Keeps (check_assigned f q v t)
check_assigned-Keeps f q v none = search parts_rules
check_assigned-Keeps f q v (some t) = check_assignment-Keeps f q v t

resolved_last-Keeps : (f : ℕ) → Keeps (resolved_last f)
unfolding resolved_last
resolved_last-Keeps f = search parts_rules

visit_returned-Keeps : (u : Unicode) (f : ℕ) (t : Option AstType) → Keeps (visit_returned u f t)
visit_returned-Keeps u f none = search parts_rules
visit_returned-Keeps u f (some (AstType.named q)) = search parts_rules
visit_returned-Keeps u f (some (AstType.array ds t)) = search (expr_rules, resolved_last-Keeps)
visit_returned-Keeps u f (some (AstType.record_type b fs)) =
    search (expr_rules, resolved_last-Keeps)
visit_returned-Keeps u f (some (AstType.pointer_to t)) = search (expr_rules, resolved_last-Keeps)
visit_returned-Keeps u f (some (AstType.enumeration ids)) = search (expr_rules, resolved_last-Keeps)

check_return-Keeps :
    (u : Unicode) (f : ℕ) (v : Option ℕ) (p : Option AstProc) → Keeps (check_return u f v p)
unfolding check_return
check_return-Keeps u f v none = search parts_rules
check_return-Keeps u f v (some p) = search (parts_rules, visit_returned-Keeps)

return_value-Keeps : (f : ℕ) (t : Option ℕ) → Keeps (return_value f t)
return_value-Keeps f none = search parts_rules
return_value-Keeps f (some t) = search parts_rules

visit_value-Keeps : (u : Unicode) (f : ℕ) (e : Option AstExpr) → Keeps (visit_value u f e)
unfolding visit_value
visit_value-Keeps u f none = search parts_rules
visit_value-Keeps u f (some e) = search (expr_rules, return_value-Keeps)

visit_condition-Keeps :
    (u : Unicode) (f : ℕ) (c : Complaint) (e : AstExpr) → Keeps (visit_condition u f c e)
unfolding visit_condition
visit_condition-Keeps u f c e = search expr_rules

is_case_compatible-Keeps : (f : ℕ) (t : Option ℕ) → Keeps (is_case_compatible f t)
unfolding is_case_compatible
is_case_compatible-Keeps f t = search parts_rules depth 9

check_label-Keeps :
    (u : Unicode) (f : ℕ) (t : Option ℕ) (c : Complaint) (e : AstSimpleExpr)
    → Keeps (check_label u f t c e)
unfolding check_label
check_label-Keeps u f t c e = search expr_rules depth 9

visit_case_label-Keeps :
    (u : Unicode) (f : ℕ) (t : Option ℕ) (l : AstLabel) → Keeps (visit_case_label u f t l)
visit_case_label-Keeps u f t (single e) = search check_label-Keeps
visit_case_label-Keeps u f t (range e d) = search (parts_rules, check_label-Keeps)

visit_case_labels-Keeps :
    (u : Unicode) (f : ℕ) (t : Option ℕ) (ls : Labels) → Keeps (visit_case_labels u f t ls)
unfolding visit_case_labels
visit_case_labels-Keeps u f t no_labels = search parts_rules
visit_case_labels-Keeps u f t (labelled l ls) =
    let h = visit_case_labels-Keeps u f t ls in search (parts_rules, visit_case_label-Keeps)

visit_bound-Keeps :
    (u : Unicode) (f : ℕ) (c : Complaint) (e : AstExpr) → Keeps (visit_bound u f c e)
unfolding visit_bound
visit_bound-Keeps u f c e = search expr_rules depth 9

visit_by-Keeps : (u : Unicode) (f : ℕ) (e : Option AstExpr) → Keeps (visit_by u f e)
visit_by-Keeps u f none = search parts_rules
visit_by-Keeps u f (some e) = search (parts_rules, visit_bound-Keeps)

index_type-Keeps : (f : ℕ) (name : Text) (t r : Option ℕ) → Keeps (index_type f name t r)
index_type-Keeps f name t none = search parts_rules
index_type-Keeps f name t (some r) = search parts_rules

check_index-Keeps : (f : ℕ) (name : Text) (t o : Option ℕ) → Keeps (check_index f name t o)
check_index-Keeps f name t none = search parts_rules
check_index-Keeps f name t (some i) = search (parts_rules, index_type-Keeps) depth 9

ruleset stat_rules = (
  expr_rules, may_assign-Keeps, check_assigned-Keeps, check_return-Keeps, visit_value-Keeps,
  visit_condition-Keeps, is_case_compatible-Keeps, visit_case_labels-Keeps, visit_bound-Keeps,
  visit_by-Keeps, check_index-Keeps,
)

mutual
  unfolding visit_statement

  visit_statement-Keeps : (u : Unicode) (f : ℕ) (s : AstStatement) → Keeps (visit_statement u f s)
  visit_statement-Keeps u f (assignment (designator q sels) e) = search stat_rules depth 12
  visit_statement-Keeps u f (return_stat e) = search stat_rules
  visit_statement-Keeps u f exit = search stat_rules
  visit_statement-Keeps u f (call_stat c) = visit_call-Keeps u f c
  visit_statement-Keeps u f (if_stat e ss elsifs else_part) =
      let h = visit_stats-Keeps u f ss in
      let g = visit_elsifs-Keeps u f elsifs in
      let k = visit_else-Keeps u f else_part in search stat_rules
  visit_statement-Keeps u f (case_stat e elements ss) =
      let h : (t : Option ℕ) → Keeps (visit_elements u f t elements) =
        λ t. visit_elements-Keeps u f t elements in
      let g = visit_stats-Keeps u f ss in search stat_rules depth 9
  visit_statement-Keeps u f (for_stat id first last by ss) =
      let h = visit_stats-Keeps u f ss in search stat_rules depth 9
  visit_statement-Keeps u f (while_stat e ss) =
      let h = visit_stats-Keeps u f ss in search stat_rules
  visit_statement-Keeps u f (repeat_stat ss e) =
      let h = visit_stats-Keeps u f ss in search stat_rules
  visit_statement-Keeps u f (loop ss) = visit_stats-Keeps u f ss
  visit_statement-Keeps u f (block ss) = visit_stats-Keeps u f ss

  pub visit_stats-Keeps : (u : Unicode) (f : ℕ) (ss : Statements) → Keeps (visit_stats u f ss)
  visit_stats-Keeps u f no_stats = search stat_rules
  visit_stats-Keeps u f (stat s ss) =
      let h = visit_statement-Keeps u f s in let g = visit_stats-Keeps u f ss in search stat_rules

  visit_elsifs-Keeps : (u : Unicode) (f : ℕ) (es : Elsifs) → Keeps (visit_elsifs u f es)
  visit_elsifs-Keeps u f no_elsifs = search stat_rules
  visit_elsifs-Keeps u f (elsif e ss rest) =
      let h = visit_stats-Keeps u f ss in let g = visit_elsifs-Keeps u f rest in search stat_rules

  visit_else-Keeps : (u : Unicode) (f : ℕ) (e : ElseClause) → Keeps (visit_else u f e)
  visit_else-Keeps u f no_else = search stat_rules
  visit_else-Keeps u f (else_clause ss) = visit_stats-Keeps u f ss

  visit_elements-Keeps :
      (u : Unicode) (f : ℕ) (t : Option ℕ) (es : CaseElements) → Keeps (visit_elements u f t es)
  visit_elements-Keeps u f t no_elements = search stat_rules
  visit_elements-Keeps u f t (element ls ss rest) =
      let h = visit_stats-Keeps u f ss in
      let g = visit_elements-Keeps u f t rest in search stat_rules
