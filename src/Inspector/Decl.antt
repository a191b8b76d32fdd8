-- ===== src/Inspector/Decl.antt =====
-- Declarations: the visits of `Inspector` from `visit(ASTConst)` to `visit(ASTProcedureForward)`, and
-- `visit(ASTModule)`, of src/compiler/inspector.cc.
use axcomp.Prelude.{
  ℕ, Bool, true, false, not, ◌||◌, ◌&&◌, ◌==◌, ltb, List, [], ◌∷◌, ◌++◌, Option, none, some, length,
  if◌then◌else◌, Text, text_eq, codes,
}
use axcomp.Lexer.Unicode.{Unicode}
use axcomp.Attr.{
  Attr, null, var, cnst, read_only, global_var, local_var, free_var, modified, closure, has_attr,
}
use axcomp.Types.{
  TypeId, TypeNode, ProcedureNode, type_id, id_eq, enumerated, array_of, record_of, pointer_to,
  procedure_of, forward_of, alias_of,
}
use axcomp.TypeTable.Rules.{int_type, void_type}
use axcomp.Importer.{Symbol, Symbols}
use axcomp.Ast.Expr.{AstIdentifier, AstExpr}
use axcomp.Ast.TypeExpr.{AstType}
use axcomp.Ast.Decl.{
  VarDec, AstProc, AstDeclaration, AstProcedure, procedure, forward, Procedures, no_procedures,
  proc, AstModule,
}
use axcomp.Inspector.Modules.{Reader, find_module}
use axcomp.Inspector.State.{
  Inspect, ◌>>=◌, ◌>>◌, pure, done, fault, gets, change, complain, complain_if, raise, deref, find,
  put, push_frame, pop_frame, reset_free_variables, get_free_variables, symbol, make_symbol, mark,
  node, new_type, change_type, find_type, put_type, resolve, last, last_followed,
  const_not_constant, const_read_only, type_defined, type_not_found, bound_type_not_found,
  bound_type_not_record, procedure_defined, procedure_read_only,
}
use axcomp.Inspector.Names.{is_there}
use axcomp.Inspector.Calls.{equivalent}
use axcomp.Inspector.Fold.{eval_expr}
use axcomp.Inspector.Expr.{visit_expr}
use axcomp.Inspector.TypeExpr.{visit_type}
use axcomp.Inspector.Stmt.{visit_stats}

-- `visit(ASTConst)`
unfoldable pub set_value_at : ℕ → Option ℕ → Symbols → Symbols
set_value_at i value [] = []
set_value_at ℕ.zero value (v ∷ vs) = (record v { const_value = value }) ∷ vs
set_value_at (ℕ.suc i) value (v ∷ vs) = v ∷ set_value_at i value vs

-- The value of a constant that is an integer.
unfoldable pub const_value : ℕ → Bool → AstExpr → Inspect (Option ℕ)
const_value f false e = pure none
const_value f true e = do
  t ← last
  integer ← equivalent f t (some int_type)
  if integer then eval_expr e else pure none

unfoldable pub visit_const : Unicode → ℕ → AstIdentifier × AstExpr → Inspect (Unit {0})
visit_const u f (id, e) = do
  visit_expr u f e
  const ← gets λ s. s.is_const
  complain_if (not const) (const_not_constant id.value)
  complain_if (has_attr read_only id.attrs) (const_read_only id.value)
  t ← last_followed
  i ← make_symbol (some t) cnst
  value ← const_value f const e
  change λ s. record s { store = set_value_at i value s.store }
  kind ← gets λ s. s.variable_type
  mark i kind
  put id.value i

-- A loop on a vector.
unfoldable pub each : {A : Type 0} → (A → Inspect (Unit {0})) → List A → Inspect (Unit {0})
each g [] = done
each g (a ∷ rest) = g a >> each g rest

-- `visit(ASTTypeDec)`
abbrev pub identified : Text → TypeNode → TypeNode
identified name (enumerated n vs) = enumerated name vs
identified name (record_of r) = record_of (record r { identified = name })
identified name n = n

unfoldable pub visit_type_dec : Unicode → ℕ → VarDec → Inspect (Unit {0})
visit_type_dec u f (id, type) = do
  known ← find_type id.value
  if is_there known then complain (type_defined id.value) else (do
    visit_type u f type
    t ← last_followed
    change_type t (identified id.value)
    alias ← new_type (alias_of id.value t)
    put_type id.value alias)

-- `visit(ASTVar)`
unfoldable pub visit_var : Unicode → ℕ → VarDec → Inspect (Unit {0})
visit_var u f (id, type) = do
  visit_type u f type
  t ← last_followed
  kind ← gets λ s. s.variable_type
  i ← make_symbol (some t) kind
  put id.value i

abbrev pub referring : Option ℕ → TypeNode → TypeNode
referring r (pointer_to _ name) = pointer_to r name
referring r n = n

abbrev pub resolve_reference : ℕ → ℕ → TypeNode → Inspect (Unit {0})
resolve_reference f t (pointer_to none name) = do
  ref ← resolve f name
  complain_if (not (is_there ref)) (type_not_found name)
  change_type t (referring ref)
resolve_reference f t n = done

unfoldable pub resolve_pointer : ℕ → ℕ → Inspect (Unit {0})
resolve_pointer f t = node t >>= λ n. resolve_reference f t n

unfoldable pub visit_vars : Unicode → ℕ → List VarDec → Inspect (Unit {0})
visit_vars u f vars = do
  each (visit_var u f) vars
  pointers ← gets λ s. s.pointer_types
  each (resolve_pointer f) pointers
  change λ s. record s { pointer_types = [] }

-- `visit(ASTDeclaration)`
abbrev pub if_there : {A : Type 0} → (A → Inspect (Unit {0})) → Option A → Inspect (Unit {0})
if_there g none = done
if_there g (some a) = g a

unfoldable pub visit_declaration : Unicode → ℕ → AstDeclaration → Inspect (Unit {0})
visit_declaration u f decs = do
  if_there (each (visit_const u f)) decs.cnst
  if_there (each (visit_type_dec u f)) decs.type
  if_there (visit_vars u f) decs.var

-- `do_receiver`: the type that it notes with the type's name.
unfoldable pub is_record : TypeNode → Bool
unfolding type_id
is_record n = id_eq (type_id n) TypeId.record_id

abbrev pub bound_node : TypeNode → Inspect Bool
bound_node (pointer_to r name) = deref r >>= λ t. node t >>= λ n. pure (is_record n)
bound_node n = pure (is_record n)

abbrev pub bound_type : Text → Option ℕ → Inspect (Option ℕ)
bound_type name none = complain (bound_type_not_found name) >> pure none
bound_type name (some t) = do
  n ← node t
  bound ← bound_node n
  complain_if (not bound) (bound_type_not_record name)
  pure (if bound then some t else none)

unfoldable pub do_receiver : ℕ → Option (AstIdentifier × AstIdentifier) → Inspect (Option ℕ)
do_receiver f none = pure none
do_receiver f (some (id, type)) = resolve f type.value >>= λ t. bound_type type.value t

-- `do_proc`, with the type of the receiver.
unfoldable pub name_taken : Text → Option ℕ → Inspect (Unit {0})
unfolding type_id
name_taken name none = done
name_taken name (some i) = do
  v ← symbol i
  t ← deref v.type
  n ← node t
  complain_if (not (id_eq (type_id n) TypeId.procedure_fwd)) (procedure_defined name)

abbrev pub visit_return_type : Unicode → ℕ → Option AstType → Inspect ℕ
visit_return_type u f none = pure void_type
visit_return_type u f (some t) = visit_type u f t >> last_followed

unfoldable pub visit_params : Unicode → ℕ → List VarDec → Inspect (List (ℕ × Bool))
visit_params u f [] = pure []
visit_params u f ((id, type) ∷ ps) = do
  visit_type u f type
  t ← last_followed
  rest ← visit_params u f ps
  pure ((t, has_attr var id.attrs) ∷ rest)

unfoldable pub do_proc : Unicode → ℕ → AstProc → Inspect ProcedureNode
do_proc u f p = do
  res ← find p.name.value
  name_taken p.name.value res
  ret ← visit_return_type u f p.return_type
  complain_if (has_attr read_only p.name.attrs) (procedure_read_only p.name.value)
  receiver ← do_receiver f p.receiver
  params ← visit_params u f p.params
  pure (record { ret = some ret; receiver = receiver; params = params })

-- `visit(ASTProcedureForward)`
abbrev pub without_receiver : ProcedureNode → ProcedureNode
without_receiver p = record p { receiver = none }

unfoldable pub visit_forward : Unicode → ℕ → AstProc → Inspect (Unit {0})
visit_forward u f p = do
  type ← do_proc u f p
  t ← new_type (forward_of (without_receiver type))
  i ← make_symbol (some t) global_var
  put p.name.value i

-- The parts of `visit(ASTProcedure)` before and behind its declarations and statements.
abbrev pub param_attr : AstIdentifier → Attr
param_attr id = if has_attr var id.attrs then var else null

abbrev pub received : ProcedureNode → TypeNode → TypeNode
received p (procedure_of q) = procedure_of (record q { receiver = p.receiver })
received p n = n

unfoldable pub put_receiver :
    ℕ → ProcedureNode → Option (AstIdentifier × AstIdentifier) → Inspect (Unit {0})
put_receiver t p none = done
put_receiver t p (some (id, type)) = do
  i ← make_symbol p.receiver (param_attr id)
  put id.value i
  change_type t (received p)

-- The type of a parameter is visited again, unless it is a name.
abbrev pub revisit : Unicode → ℕ → AstIdentifier → AstType → Inspect (Unit {0})
revisit u f id (AstType.named q) = do
  t ← find_type q.id.value
  i ← make_symbol t (param_attr id)
  put id.value i
revisit u f id type = visit_type u f type

unfoldable pub put_params : Unicode → ℕ → List VarDec → List (ℕ × Bool) → Inspect (Unit {0})
put_params u f [] ts = done
put_params u f (p ∷ ps) [] = fault
put_params u f ((id, type) ∷ ps) ((t, _) ∷ ts) = do
  revisit u f id type
  i ← make_symbol (some t) (param_attr id)
  put id.value i
  put_params u f ps ts

-- The free variables that are noted with the procedure.
abbrev pub free_attrs : Symbol → List Attr
free_attrs v = if has_attr modified v.attrs then free_var ∷ modified ∷ [] else free_var ∷ []

abbrev pub captured : Text → Symbol → List (Text × List Attr)
captured name v =
    if has_attr global_var v.attrs || has_attr cnst v.attrs then [] else (name, free_attrs v) ∷ []

abbrev pub capture : Text → Option ℕ → Inspect (List (Text × List Attr))
capture name res = deref res >>= λ i. symbol i >>= λ v. pure (captured name v)

-- The names of a `std::set`, in the order of their bytes.
unfoldable pub text_lt : Text → Text → Bool
text_lt [] [] = false
text_lt [] (d ∷ t) = true
text_lt (c ∷ s) [] = false
text_lt (c ∷ s) (d ∷ t) = let rest = text_lt s t in ltb c d || c == d && rest

unfoldable pub insert_name : Text → List Text → List Text
insert_name x [] = x ∷ []
insert_name x (y ∷ ys) = let rest = insert_name x ys in if text_lt x y then x ∷ y ∷ ys else y ∷ rest

unfoldable pub in_order : List Text → List Text
in_order [] = []
in_order (x ∷ xs) = insert_name x (in_order xs)

unfoldable pub captures : Text → List Text → Inspect (List (Text × List Attr))
captures own [] = pure []
captures own (name ∷ names) = do
  here ← (if text_eq name own then pure [] else find name >>= λ res. capture name res)
  rest ← captures own names
  pure (here ++ rest)

-- `get_closure_struct` of src/compiler/types/type_procedure.cc, and what is noted for a closure.
unfoldable pub put_closure : Text → ℕ → List (Text × List Attr) → Inspect (Unit {0})
put_closure name i [] = done
put_closure name i (c ∷ cs) = do
  mark i closure
  pointer ← new_type (pointer_to (some int_type) (codes "INTEGER"))
  struct ← new_type (array_of pointer (length (c ∷ cs) ∷ []))
  j ← make_symbol (some struct) closure
  put (codes "_closure") j
  change λ s. record s { closures = s.closures ++ (name, c ∷ cs) ∷ [] }

unfoldable pub open_procedure : Unicode → ℕ → AstProc → Inspect ℕ
open_procedure u f p = do
  type ← do_proc u f p
  t ← new_type (procedure_of (without_receiver type))
  i ← make_symbol (some t) global_var
  put p.name.value i
  change λ s. record s { last_proc = some p }
  push_frame p.name.value
  put_receiver t type p.receiver
  put_params u f p.params type.params
  pure i

unfoldable pub close_procedure : AstProc → ℕ → Inspect (Unit {0})
close_procedure p i = do
  names ← get_free_variables
  free ← captures p.name.value (in_order names)
  put_closure p.name.value i free
  pop_frame

module _ (u : Unicode) (f : ℕ) where
  unfoldable mutual
    pub visit_procedure : AstProcedure → Inspect (Unit {0})
    visit_procedure (forward p) = visit_forward u f p
    visit_procedure (procedure p decs procs ss) = do
      i ← open_procedure u f p
      visit_declaration u f decs
      visit_procedures procs
      reset_free_variables
      visit_stats u f ss
      close_procedure p i

    pub visit_procedures : Procedures → Inspect (Unit {0})
    visit_procedures no_procedures = done
    visit_procedures (proc p ps) = visit_procedure p >> visit_procedures ps

  -- `visit(ASTImport)`, one module of its list.
  unfoldable pub visit_import : Reader → AstIdentifier × Option AstIdentifier → Inspect (Unit {0})
  visit_import reader (id, other) =
      find_module reader id.value >>= λ known. if known then done else raise

  -- `visit(ASTModule)` and `check`
  unfoldable pub visit_module : Reader → AstModule → Inspect (Unit {0})
  visit_module reader m = do
    if_there (each (visit_import reader)) m.imports
    change λ s. record s { variable_type = global_var }
    visit_declaration u f m.decs
    change λ s. record s { variable_type = local_var }
    visit_procedures m.procedures
    change λ s. record s { last_proc = none }
    visit_stats u f m.stats
