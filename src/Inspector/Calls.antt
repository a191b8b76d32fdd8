-- ===== src/Inspector/Calls.antt =====
-- Calls: the parts of `visit(ASTCall)` of src/compiler/inspector.cc that visit no expression.
use axcomp.Prelude.{
  ℕ, Bool, true, false, not, ◌&&◌, ◌||◌, [], ◌∷◌, Option, none, some, get_elem?, if◌then◌else◌,
  ◌==◌, Text, text_eq, codes,
}
use axcomp.Attr.{used, modified}
use axcomp.Types.{TypeId, TypeNode, ProcedureNode, type_id, id_eq, procedure_of, forward_of}
use axcomp.Types.Equiv.{equiv}
use axcomp.TypeTable.Rules.{any_type}
use axcomp.Ast.Expr.{
  AstIdentifier, AstQualident, Selectors, no_selectors, array_ref, field_ref, pointer_ref,
}
use axcomp.Inspector.State.{
  on_option, Inspect, State, ◌>>=◌, ◌>>◌, pure, done, gets, reading, complain, complain_if, deref,
  find, symbol, node, get_name, resolve, set_last, mark, last, last_followed, undefined_procedure,
  not_procedure, base_type, no_reference, argument_type,
}
use axcomp.Inspector.Names.{visit_qualident}

-- What `dynamic_pointer_cast<ProcedureType>` finds at a symbol.
abbrev pub as_procedure : Option TypeNode → Option ProcedureNode
as_procedure (some (procedure_of p)) = some p
as_procedure (some (forward_of p)) = some p
as_procedure _ = none

abbrev pub node_at : State → Option ℕ → Option TypeNode
node_at s none = none
node_at s (some t) = get_elem? s.types.heap t

unfoldable pub procedure_at : ℕ → Inspect (Option ProcedureNode)
procedure_at i = do v ← symbol i; n ← gets λ s. node_at s v.type; pure (as_procedure n)

-- The procedure of a call with its name and its symbol; none after an error.
pub record Callee : Type 0 where
  pub name : Text
  pub symbol : ℕ
  pub procedure : ProcedureNode

abbrev pub failed : {A : Type 0} → Inspect (Unit {0}) → Inspect (Option A)
failed m = m >> pure none

-- `equiv` of two types that are followed.
unfoldable pub equivalent : ℕ → Option ℕ → Option ℕ → Inspect Bool
equivalent f l r = do i ← deref l; j ← deref r; reading λ s. equiv f s.types.heap i j

-- `first_field`: src/compiler/ast.cc
abbrev pub first_field : Selectors → Option AstIdentifier
first_field (field_ref id _) = some id
first_field (array_ref _ _) = none
first_field (pointer_ref _) = none
first_field no_selectors = none

abbrev pub receiver_checked : Text → ℕ → ProcedureNode → Bool → Inspect (Option Callee)
receiver_checked name i p false = failed (complain (base_type name))
receiver_checked name i p true = pure (some (record { name = name; symbol = i; procedure = p }))

abbrev pub bound_procedure :
    ℕ → AstQualident → Text → ℕ → Option ProcedureNode → Inspect (Option Callee)
bound_procedure f q name i none = failed (complain (not_procedure name))
bound_procedure f q name i (some p) = do
  visit_qualident f q
  base ← last
  same ← equivalent f base p.receiver
  receiver_checked name i p same

abbrev pub bound_symbol : ℕ → AstQualident → Text → Option ℕ → Inspect (Option Callee)
bound_symbol f q name none = failed (complain (not_procedure name))
bound_symbol f q name (some i) = procedure_at i >>= λ p. bound_procedure f q name i p

abbrev pub find_bound : ℕ → AstQualident → Text → Option AstIdentifier → Inspect (Option Callee)
find_bound f q name none = failed (complain (not_procedure name))
find_bound f q name (some field) = find field.value >>= λ res. bound_symbol f q field.value res

abbrev pub callee_at :
    ℕ → AstQualident → Selectors → Text → ℕ → Option ProcedureNode → Inspect (Option Callee)
callee_at f q sels name i (some p) = pure (some (record { name = name; symbol = i; procedure = p }))
callee_at f q sels name i none = find_bound f q name (first_field sels)

abbrev pub callee_symbol : ℕ → AstQualident → Selectors → Text → Option ℕ → Inspect (Option Callee)
callee_symbol f q sels name none = failed (complain (undefined_procedure name))
callee_symbol f q sels name (some i) = procedure_at i >>= λ p. callee_at f q sels name i p

unfoldable pub find_callee : ℕ → AstQualident → Selectors → Text → Inspect (Option Callee)
find_callee f q sels name = find name >>= λ res. callee_symbol f q sels name res

-- Whether the arguments pass unchecked: the first parameter has the type `any`.
unfoldable pub skips : ProcedureNode → Bool
skips p = elim p.params [ [] ↦ false | (t, _) ∷ _ ↦ t == any_type ]

-- The check of an argument for a parameter `VAR`, with the text of the argument.
abbrev pub mark_found : Option ℕ → Inspect (Unit {0})
mark_found none = done
mark_found (some i) = mark i modified

unfoldable pub check_reference : Text → Inspect Text → Inspect (Unit {0})
check_reference name printed = do
  lvalue ← gets λ s. s.is_lvalue
  const ← gets λ s. s.is_const
  if not lvalue || const
      then (last_followed >>= λ _. complain (no_reference name))
      else (do text ← printed; res ← find text; mark_found res)

-- The check of an argument's type. The resolved type of the argument is followed unless the
-- parameter takes any type.
abbrev pub resolved_type : ℕ → ℕ → Inspect (Option ℕ)
resolved_type f t = do name ← get_name t; resolve f name

unfoldable pub accepts_any : Text → TypeNode → TypeNode → Bool
unfolding type_id
accepts_any name base param =
    id_eq (type_id base) TypeId.any
    || text_eq name (codes "ORD")
      && id_eq (type_id base) TypeId.enumeration
      && id_eq (type_id param) TypeId.char

abbrev pub check_base : ℕ → Text → ℕ → TypeNode → Option ℕ → Inspect (Unit {0})
check_base f name expected p base = do
  i ← deref base
  b ← node i
  same ← (if accepts_any name b p then pure true else equivalent f (some expected) base)
  complain_if (not same) (argument_type name)

unfoldable pub check_argument : ℕ → Text → ℕ → Inspect (Unit {0})
unfolding type_id
check_argument f name param = do
  t ← last_followed
  base ← resolved_type f t
  type ← resolved_type f param
  expected ← deref type
  p ← node expected
  if id_eq (type_id p) TypeId.void then done else check_base f name expected p base

-- The type that a name stands for, if it is an enumeration.
unfoldable pub enumeration_named : ℕ → Text → Inspect (Option ℕ)
unfolding type_id
enumeration_named f name = do
  t ← resolve f name
  on_option t (pure none)
      λ i. do n ← node i; pure (if id_eq (type_id n) TypeId.enumeration then some i else none)

unfoldable pub enumeration_typed : Option ℕ → Inspect (Option ℕ)
unfolding type_id
enumeration_typed none = pure none
enumeration_typed (some i) = do
  n ← node i
  pure (if id_eq (type_id n) TypeId.enumeration then some i else none)

-- The end of a call that is accepted.
unfoldable pub finish : ℕ → Option ℕ → Inspect (Unit {0})
finish symbol type = mark symbol used >> set_last type
