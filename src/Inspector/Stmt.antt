-- ===== src/Inspector/Stmt.antt =====
-- Statements: the visits of `Inspector` from `visit(ASTAssignment)` to `visit(ASTBlock)` of
-- src/compiler/inspector.cc.
use axcomp.Prelude.{
  ℕ, Bool, true, false, not, ◌||◌, [], Option, none, some, if◌then◌else◌, ◌==◌, Text, text_eq,
}
use axcomp.Token.{assign}
use axcomp.Lexer.Unicode.{Unicode}
use axcomp.Attr.{cnst, read_only, modified, has_attr}
use axcomp.Types.{TypeId, TypeNode, type_id, id_eq}
use axcomp.TypeTable.Rules.{int_type, bool_type, char_type, void_type}
use axcomp.Importer.{make_coded_id, Symbol}
use axcomp.Ast.Expr.{
  AstQualident, AstExpr, AstSimpleExpr, designator, Labels, no_labels, labelled, AstLabel, single,
  range,
}
use axcomp.Ast.TypeExpr.{AstType}
use axcomp.Ast.Decl.{AstProc}
use axcomp.Ast.Stmt.{
  AstStatement, assignment, return_stat, exit, call_stat, if_stat, case_stat, for_stat, while_stat,
  repeat_stat, loop, block, Statements, no_stats, stat, Elsifs, no_elsifs, elsif, ElseClause,
  no_else, else_clause, CaseElements, no_elements, element,
}
use axcomp.Printer.Expr.{qualident_text}
use axcomp.Inspector.State.{
  on_option, Inspect, Complaint, ◌>>=◌, ◌>>◌, pure, done, gets, complain, complain_if, deref, find,
  symbol, mark, node, get_name, resolve, set_last, last, last_followed, assign_const,
  assign_read_only, assign_types, return_type, case_type, case_label, case_first, case_last,
  for_start, for_end, for_by, for_index_undefined, for_index_type, if_boolean, elsif_boolean,
  while_boolean, repeat_boolean,
}
use axcomp.Inspector.Designator.{last_numeric, check_types}
use axcomp.Inspector.Calls.{equivalent}
use axcomp.Inspector.Expr.{visit_expr, visit_simple, visit_designator, visit_call}
use axcomp.Inspector.TypeExpr.{visit_type}

-- `make_coded_id` of the identifier: src/compiler/ast/ast_basic.hh
abbrev pub coded_id : AstQualident → Text
coded_id q = if text_eq q.qual [] then q.id.value else make_coded_id q.qual q.id.value

-- `visit(ASTAssignment)` up to the visit of the variable: whether the visit goes on.
abbrev pub assigned : AstQualident → ℕ → Symbol → Inspect Bool
assigned q i v =
    if has_attr cnst v.attrs
    then complain (assign_const (qualident_text q)) >> pure false
    else if has_attr read_only v.attrs
    then complain (assign_read_only (qualident_text q)) >> pure false
    else mark i modified >> pure true

unfoldable pub may_assign : AstQualident → Inspect Bool
may_assign q = do
  res ← find (coded_id q)
  on_option res (pure true) λ i. symbol i >>= λ v. assigned q i v

-- `is_assignable` of the object of a type that is no alias.
unfoldable pub is_assignable : TypeNode → Bool
unfolding type_id
is_assignable n = not (
    id_eq (type_id n) TypeId.array
    || id_eq (type_id n) TypeId.record_id
    || id_eq (type_id n) TypeId.procedure
    || id_eq (type_id n) TypeId.procedure_fwd
    || id_eq (type_id n) TypeId.module_id)

abbrev pub assignable : ℕ → ℕ → Option ℕ → Option ℕ → Inspect Bool
assignable f i target (some _) = pure true
assignable f i target none = do
  n ← node i
  if is_assignable n then equivalent f (some i) target else pure false

-- The check of the types of both sides, for the type `t` of the variable.
unfoldable pub check_assignment : ℕ → AstQualident → Option ℕ → ℕ → Inspect (Unit {0})
check_assignment f q value t = do
  name ← get_name t
  alias ← resolve f name
  i ← deref alias
  set_last (some i)
  rule ← check_types f assign (some i) value
  fits ← assignable f i value rule
  complain_if (not fits) (assign_types (qualident_text q))

abbrev pub check_assigned : ℕ → AstQualident → Option ℕ → Option ℕ → Inspect (Unit {0})
check_assigned f q value none = done
check_assigned f q value (some t) = check_assignment f q value t

-- The type that a procedure returns, as `visit(ASTReturn)` finds it.
unfoldable pub resolved_last : ℕ → Inspect (Option ℕ)
resolved_last f = do t ← last_followed; name ← get_name t; resolve f name

abbrev pub or_void : Option ℕ → Option ℕ
or_void none = some void_type
or_void (some t) = some t

abbrev pub visit_returned : Unicode → ℕ → Option AstType → Inspect (Option ℕ)
visit_returned u f none = pure (some void_type)
visit_returned u f (some (AstType.named q)) = resolve f q.id.value >>= λ t. pure (or_void t)
visit_returned u f (some t) = visit_type u f t >> resolved_last f

unfoldable pub check_return : Unicode → ℕ → Option ℕ → Option AstProc → Inspect (Unit {0})
check_return u f value none = done
check_return u f value (some p) = do
  type ← visit_returned u f p.return_type
  same ← equivalent f value type
  complain_if (not same) (return_type p.name.value)

abbrev pub return_value : ℕ → Option ℕ → Inspect (Option ℕ)
return_value f none = pure (some void_type)
return_value f (some t) = get_name t >>= λ name. resolve f name

unfoldable pub visit_value : Unicode → ℕ → Option AstExpr → Inspect (Option ℕ)
visit_value u f none = pure (some void_type)
visit_value u f (some e) = do visit_expr u f e; t ← last; return_value f t

-- A condition: `last_type` has to be the object of BOOLEAN.
abbrev pub is_type : ℕ → Option ℕ → Bool
is_type t none = false
is_type t (some i) = i == t

unfoldable pub visit_condition : Unicode → ℕ → Complaint → AstExpr → Inspect (Unit {0})
visit_condition u f c e = do visit_expr u f e; t ← last; complain_if (not (is_type bool_type t)) c

-- `is_case_compatible`
unfoldable pub is_case_compatible : ℕ → Option ℕ → Inspect Bool
unfolding type_id
is_case_compatible f t = do
  integer ← equivalent f t (some int_type)
  char ← (if integer then pure true else equivalent f t (some char_type))
  i ← deref t
  n ← node i
  pure (char || id_eq (type_id n) TypeId.enumeration)

-- The labels of `visit(ASTCase)`.
unfoldable pub check_label : Unicode → ℕ → Option ℕ → Complaint → AstSimpleExpr → Inspect (Unit {0})
check_label u f type c e = do
  visit_simple u f e
  t ← last
  same ← equivalent f t type
  complain_if (not same) c

abbrev pub visit_case_label : Unicode → ℕ → Option ℕ → AstLabel → Inspect (Unit {0})
visit_case_label u f type (single e) = check_label u f type case_label e
visit_case_label u f type (range e d) =
    check_label u f type case_first e >> check_label u f type case_last d

unfoldable pub visit_case_labels : Unicode → ℕ → Option ℕ → Labels → Inspect (Unit {0})
visit_case_labels u f type no_labels = done
visit_case_labels u f type (labelled l ls) =
    visit_case_label u f type l >> visit_case_labels u f type ls

-- The bounds of `visit(ASTFor)`, with the type noted with the expression.
unfoldable pub visit_bound : Unicode → ℕ → Complaint → AstExpr → Inspect (Option ℕ)
visit_bound u f c e = do
  type ← visit_expr u f e
  numeric ← last_numeric f
  complain_if (not numeric) c
  pure type

abbrev pub visit_by : Unicode → ℕ → Option AstExpr → Inspect (Unit {0})
visit_by u f none = done
visit_by u f (some e) = visit_bound u f for_by e >> done

abbrev pub index_type : ℕ → Text → Option ℕ → Option ℕ → Inspect (Unit {0})
index_type f name start none = complain (for_index_type name)
index_type f name start (some t) = do
  same ← equivalent f start (some t)
  complain_if (not same) (for_index_type name)

abbrev pub check_index : ℕ → Text → Option ℕ → Option ℕ → Inspect (Unit {0})
check_index f name start none = complain (for_index_undefined name)
check_index f name start (some i) = do
  v ← symbol i
  t ← deref v.type
  type_name ← get_name t
  type ← resolve f type_name
  index_type f name start type

module _ (u : Unicode) (f : ℕ) where
  unfoldable mutual
    pub visit_statement : AstStatement → Inspect (Unit {0})
    visit_statement (assignment (designator q sels) e) = do
      visit_expr u f e
      value ← last
      more ← may_assign q
      if more
          then (visit_designator u f (designator q sels) >> last >>= λ t.
              check_assigned f q value t)
          else done
    visit_statement (return_stat e) = do
      value ← visit_value u f e
      proc ← gets λ s. s.last_proc
      check_return u f value proc
    visit_statement exit = done
    visit_statement (call_stat c) = visit_call u f c
    visit_statement (if_stat e ss elsifs else_part) = do
      visit_condition u f if_boolean e
      visit_stats ss
      visit_elsifs elsifs
      visit_else else_part
    visit_statement (case_stat e elements ss) = do
      visit_simple u f e
      type ← last
      fits ← is_case_compatible f type
      complain_if (not fits) case_type
      visit_elements type elements
      visit_stats ss
    visit_statement (for_stat id first end by ss) = do
      start ← visit_bound u f for_start first
      visit_bound u f for_end end
      visit_by u f by
      res ← find id.value
      check_index f id.value start res
      visit_stats ss
    visit_statement (while_stat e ss) = visit_condition u f while_boolean e >> visit_stats ss
    visit_statement (repeat_stat ss e) = visit_stats ss >> visit_condition u f repeat_boolean e
    visit_statement (loop ss) = visit_stats ss
    visit_statement (block ss) = visit_stats ss

    pub visit_stats : Statements → Inspect (Unit {0})
    visit_stats no_stats = done
    visit_stats (stat s ss) = visit_statement s >> visit_stats ss

    pub visit_elsifs : Elsifs → Inspect (Unit {0})
    visit_elsifs no_elsifs = done
    visit_elsifs (elsif e ss rest) = do
      visit_condition u f elsif_boolean e
      visit_stats ss
      visit_elsifs rest

    pub visit_else : ElseClause → Inspect (Unit {0})
    visit_else no_else = done
    visit_else (else_clause ss) = visit_stats ss

    pub visit_elements : Option ℕ → CaseElements → Inspect (Unit {0})
    visit_elements type no_elements = done
    visit_elements type (element ls ss rest) = do
      visit_case_labels u f type ls
      visit_stats ss
      visit_elements type rest
