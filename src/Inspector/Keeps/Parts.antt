-- ===== src/Inspector/Keeps/Parts.antt =====
-- What the parts of the visits of names, designators and calls keep: src/compiler/inspector.cc.
use axcomp.Prelude.{ℕ, refl, Bool, true, false, Option, none, some, Text}
use axcomp.Token.{TokenType}
use axcomp.Types.{
  TypeNode, ProcedureNode, RecordNode, simple, enumerated, array_of, open_array_of, record_of,
  pointer_to, procedure_of, forward_of, alias_of, module_of,
}
use axcomp.Ast.Expr.{AstIdentifier, AstQualident, Selectors}
use axcomp.Inspector.State.{Inspect}
use axcomp.Inspector.Names.{
  coded_symbol, get_qualident, rewritten, missing, resolved, visit_identifier, visit_qualident,
}
use axcomp.Inspector.Designator.{
  last_numeric, check_types, element, record_behind, field_found, field_of, select_field,
  select_pointer, next_node,
}
use axcomp.Inspector.Calls.{
  procedure_at, equivalent, receiver_checked, bound_procedure, bound_symbol, find_bound, callee_at,
  callee_symbol, find_callee, mark_found, check_reference, resolved_type, check_base,
  check_argument, enumeration_named, enumeration_typed, finish,
}
use axcomp.Inspector.Keeps.{Keeps, Later-same}
use axcomp.Inspector.Keeps.Tables.{keeps_rules, Keeps-change}

coded_symbol-Keeps : (q : AstQualident) (o : Option ℕ) → Keeps (coded_symbol q o)
coded_symbol-Keeps q none = search keeps_rules depth 9
coded_symbol-Keeps q (some i) = search keeps_rules depth 9

pub get_qualident-Keeps : (q : AstQualident) → Keeps (get_qualident q)
unfolding get_qualident
get_qualident-Keeps q = search (keeps_rules, coded_symbol-Keeps) depth 9

pub rewritten-Keeps : (q : AstQualident) → Keeps (rewritten q)
unfolding rewritten
rewritten-Keeps q = search keeps_rules depth 9

qualid_error-Keeps : Keeps (axcomp.Inspector.State.change λ s. record s { qualid_error = true })
qualid_error-Keeps = Keeps-change _ λ s. Later-same s _ refl refl refl refl

missing-Keeps : (name : Text) → Keeps (missing name)
missing-Keeps name = search (keeps_rules, qualid_error-Keeps) depth 9

resolved-Keeps : (name : Text) (const : Bool) (t : Option ℕ) → Keeps (resolved name const t)
resolved-Keeps name const none = search keeps_rules depth 9
resolved-Keeps name const (some t) = search keeps_rules depth 9

pub visit_identifier-Keeps : (f : ℕ) (name : Text) → Keeps (visit_identifier f name)
unfolding visit_identifier
visit_identifier-Keeps f name = search (keeps_rules, missing-Keeps, resolved-Keeps) depth 9

is_qualid-Keeps :
    Keeps (axcomp.Inspector.State.change λ s. record s { is_qualid = true; qualid_error = false })
is_qualid-Keeps = Keeps-change _ λ s. Later-same s _ refl refl refl refl

pub visit_qualident-Keeps : (f : ℕ) (q : AstQualident) → Keeps (visit_qualident f q)
unfolding visit_qualident
visit_qualident-Keeps f q =
    search (keeps_rules, visit_identifier-Keeps, get_qualident-Keeps, is_qualid-Keeps) depth 9

pub last_numeric-Keeps : (f : ℕ) → Keeps (last_numeric f)
last_numeric-Keeps f = search keeps_rules depth 9

pub check_types-Keeps : (f : ℕ) (op : TokenType) (l r : Option ℕ) → Keeps (check_types f op l r)
unfolding check_types
check_types-Keeps f op l r = search keeps_rules depth 9

pub element-Keeps : (name : Text) (n : ℕ) (t : TypeNode) → Keeps (element name n t)
unfolding element
element-Keeps name n (array_of b ds) = search keeps_rules depth 9
element-Keeps name n (open_array_of b ds) = search keeps_rules depth 9
element-Keeps name n (simple i s) = search keeps_rules depth 9
element-Keeps name n (enumerated s vs) = search keeps_rules depth 9
element-Keeps name n (record_of r) = search keeps_rules depth 9
element-Keeps name n (pointer_to r s) = search keeps_rules depth 9
element-Keeps name n (procedure_of p) = search keeps_rules depth 9
element-Keeps name n (forward_of p) = search keeps_rules depth 9
element-Keeps name n (alias_of s t) = search keeps_rules depth 9
element-Keeps name n (module_of s) = search keeps_rules depth 9

record_behind-Keeps : (t : TypeNode) → Keeps (record_behind t)
unfolding record_behind
record_behind-Keeps (array_of b ds) = search keeps_rules depth 9
record_behind-Keeps (open_array_of b ds) = search keeps_rules depth 9
record_behind-Keeps (simple i s) = search keeps_rules depth 9
record_behind-Keeps (enumerated s vs) = search keeps_rules depth 9
record_behind-Keeps (record_of r) = search keeps_rules depth 9
record_behind-Keeps (pointer_to r s) = search keeps_rules depth 9
record_behind-Keeps (procedure_of p) = search keeps_rules depth 9
record_behind-Keeps (forward_of p) = search keeps_rules depth 9
record_behind-Keeps (alias_of s t) = search keeps_rules depth 9
record_behind-Keeps (module_of s) = search keeps_rules depth 9

field_found-Keeps : (name : Text) (t : Option ℕ) → Keeps (field_found name t)
field_found-Keeps name none = search keeps_rules depth 9
field_found-Keeps name (some t) = search keeps_rules depth 9

field_of-Keeps : (f : ℕ) (name : Text) (r : Option RecordNode) → Keeps (field_of f name r)
field_of-Keeps f name none = search keeps_rules depth 9
field_of-Keeps f name (some r) = search (keeps_rules, field_found-Keeps) depth 9

pub select_field-Keeps : (f : ℕ) (name : Text) (t : TypeNode) → Keeps (select_field f name t)
unfolding select_field
select_field-Keeps f name t = search (keeps_rules, record_behind-Keeps, field_of-Keeps) depth 9

pub select_pointer-Keeps : (name : Text) (t : TypeNode) → Keeps (select_pointer name t)
unfolding select_pointer
select_pointer-Keeps name (array_of b ds) = search keeps_rules depth 9
select_pointer-Keeps name (open_array_of b ds) = search keeps_rules depth 9
select_pointer-Keeps name (simple i s) = search keeps_rules depth 9
select_pointer-Keeps name (enumerated s vs) = search keeps_rules depth 9
select_pointer-Keeps name (record_of r) = search keeps_rules depth 9
select_pointer-Keeps name (pointer_to r s) = search keeps_rules depth 9
select_pointer-Keeps name (procedure_of p) = search keeps_rules depth 9
select_pointer-Keeps name (forward_of p) = search keeps_rules depth 9
select_pointer-Keeps name (alias_of s t) = search keeps_rules depth 9
select_pointer-Keeps name (module_of s) = search keeps_rules depth 9

pub next_node-Keeps : (f : ℕ) → Keeps (next_node f)
unfolding next_node
next_node-Keeps f = search keeps_rules depth 9

procedure_at-Keeps : (i : ℕ) → Keeps (procedure_at i)
unfolding procedure_at
procedure_at-Keeps i = search keeps_rules depth 9

pub equivalent-Keeps : (f : ℕ) (l r : Option ℕ) → Keeps (equivalent f l r)
unfolding equivalent
equivalent-Keeps f l r = search keeps_rules depth 9

receiver_checked-Keeps :
    (name : Text) (i : ℕ) (p : ProcedureNode) (same : Bool) → Keeps (receiver_checked name i p same)
receiver_checked-Keeps name i p false = search keeps_rules depth 9
receiver_checked-Keeps name i p true = search keeps_rules depth 9

bound_procedure-Keeps :
    (f : ℕ) (q : AstQualident) (name : Text) (i : ℕ) (p : Option ProcedureNode)
    → Keeps (bound_procedure f q name i p)
bound_procedure-Keeps f q name i none = search keeps_rules depth 9
bound_procedure-Keeps f q name i (some p) =
    search (keeps_rules, visit_qualident-Keeps, equivalent-Keeps, receiver_checked-Keeps) depth 9

bound_symbol-Keeps :
    (f : ℕ) (q : AstQualident) (name : Text) (o : Option ℕ) → Keeps (bound_symbol f q name o)
bound_symbol-Keeps f q name none = search keeps_rules depth 9
bound_symbol-Keeps f q name (some i) =
    search (keeps_rules, procedure_at-Keeps, bound_procedure-Keeps) depth 9

find_bound-Keeps :
    (f : ℕ) (q : AstQualident) (name : Text) (o : Option AstIdentifier)
    → Keeps (find_bound f q name o)
find_bound-Keeps f q name none = search keeps_rules depth 9
find_bound-Keeps f q name (some field) = search (keeps_rules, bound_symbol-Keeps) depth 9

callee_at-Keeps :
    (f : ℕ) (q : AstQualident) (sels : Selectors) (name : Text) (i : ℕ) (p : Option ProcedureNode)
    → Keeps (callee_at f q sels name i p)
callee_at-Keeps f q sels name i none = search (keeps_rules, find_bound-Keeps) depth 9
callee_at-Keeps f q sels name i (some p) = search keeps_rules depth 9

callee_symbol-Keeps :
    (f : ℕ) (q : AstQualident) (sels : Selectors) (name : Text) (o : Option ℕ)
    → Keeps (callee_symbol f q sels name o)
callee_symbol-Keeps f q sels name none = search keeps_rules depth 9
callee_symbol-Keeps f q sels name (some i) =
    search (keeps_rules, procedure_at-Keeps, callee_at-Keeps) depth 9

pub find_callee-Keeps :
    (f : ℕ) (q : AstQualident) (sels : Selectors) (name : Text) → Keeps (find_callee f q sels name)
unfolding find_callee
find_callee-Keeps f q sels name = search (keeps_rules, callee_symbol-Keeps) depth 9

mark_found-Keeps : (o : Option ℕ) → Keeps (mark_found o)
mark_found-Keeps none = search keeps_rules depth 9
mark_found-Keeps (some i) = search keeps_rules depth 9

pub check_reference-Keeps :
    (name : Text) (text : Inspect Text) → Keeps text → Keeps (check_reference name text)
unfolding check_reference
check_reference-Keeps name text h = search (keeps_rules, mark_found-Keeps) depth 9

resolved_type-Keeps : (f t : ℕ) → Keeps (resolved_type f t)
resolved_type-Keeps f t = search keeps_rules depth 9

check_base-Keeps :
    (f : ℕ) (name : Text) (expected : ℕ) (p : TypeNode) (base : Option ℕ)
    → Keeps (check_base f name expected p base)
check_base-Keeps f name expected p base = search (keeps_rules, equivalent-Keeps) depth 9

pub check_argument-Keeps : (f : ℕ) (name : Text) (param : ℕ) → Keeps (check_argument f name param)
unfolding check_argument
check_argument-Keeps f name param =
    search (keeps_rules, resolved_type-Keeps, check_base-Keeps) depth 9

pub enumeration_named-Keeps : (f : ℕ) (name : Text) → Keeps (enumeration_named f name)
unfolding enumeration_named
enumeration_named-Keeps f name = search keeps_rules depth 9

pub enumeration_typed-Keeps : (t : Option ℕ) → Keeps (enumeration_typed t)
unfolding enumeration_typed
enumeration_typed-Keeps none = search keeps_rules depth 9
enumeration_typed-Keeps (some i) = search keeps_rules depth 9

pub finish-Keeps : (i : ℕ) (t : Option ℕ) → Keeps (finish i t)
unfolding finish
finish-Keeps i t = search keeps_rules depth 9

pub ruleset parts_rules = (
  keeps_rules, get_qualident-Keeps, rewritten-Keeps, visit_qualident-Keeps, last_numeric-Keeps,
  check_types-Keeps, element-Keeps, select_field-Keeps, select_pointer-Keeps, next_node-Keeps,
  equivalent-Keeps, find_callee-Keeps, check_reference-Keeps, check_argument-Keeps,
  enumeration_named-Keeps, enumeration_typed-Keeps, finish-Keeps,
)
