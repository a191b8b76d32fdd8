-- ===== src/Inspector/Keeps/Decl.antt =====
-- What the visits of declarations keep: src/compiler/inspector.cc.
use axcomp.Prelude.{ℕ, refl, Bool, true, false, List, [], ◌∷◌, ◌++◌, Option, none, some, Text}
use axcomp.Lexer.Unicode.{Unicode}
use axcomp.Attr.{Attr}
use axcomp.Types.{
  TypeNode, ProcedureNode, simple, enumerated, array_of, open_array_of, record_of, pointer_to,
  procedure_of, forward_of, alias_of, module_of,
}
use axcomp.Ast.Expr.{AstIdentifier, AstExpr}
use axcomp.Ast.TypeExpr.{AstType}
use axcomp.Ast.Decl.{VarDec, AstProc, AstDeclaration}
use axcomp.Inspector.State.{State, Inspect}
use axcomp.Inspector.State
use axcomp.Inspector.Decl.{
  set_value_at, const_value, visit_const, each, visit_type_dec, visit_var, resolve_reference,
  resolve_pointer, visit_vars, if_there, visit_declaration, bound_node, bound_type, do_receiver,
  name_taken, visit_return_type, visit_params, do_proc, visit_forward, put_receiver, revisit,
  put_params, capture, captures, put_closure,
}
use axcomp.Inspector.Keeps.{Keeps, Later-same}
use axcomp.Inspector.Keeps.Tables.{Keeps-change}
use axcomp.Inspector.Keeps.Parts.{parts_rules}
use axcomp.Inspector.Keeps.Expr.{visit_expr-Keeps}
use axcomp.Inspector.Keeps.TypeExpr.{eval_expr-Keeps, visit_type-Keeps}

ruleset base_rules = (parts_rules, visit_expr-Keeps, eval_expr-Keeps, visit_type-Keeps)

const_value-Keeps : (f : ℕ) (b : Bool) (e : AstExpr) → Keeps (const_value f b e)
unfolding const_value
const_value-Keeps f true e = search base_rules
const_value-Keeps f false e = search base_rules

store-Keeps :
    (i : ℕ) (value : Option ℕ)
    → Keeps (State.change λ s. record s { store = set_value_at i value s.store })
store-Keeps i value = Keeps-change _ λ s. Later-same s _ refl refl refl refl

visit_const-Keeps : (u : Unicode) (f : ℕ) (c : AstIdentifier × AstExpr) → Keeps (visit_const u f c)
unfolding visit_const
visit_const-Keeps u f (id, e) = search (base_rules, const_value-Keeps, store-Keeps) depth 16

pub each-Keeps :
    {A : Type 0} (g : A → Inspect (Unit {0})) (xs : List A)
    → ((a : A) → Keeps (g a))
    → Keeps (each g xs)
unfolding each
each-Keeps g [] h = search parts_rules
each-Keeps g (x ∷ xs) h = let k = each-Keeps g xs h in search (parts_rules, h)

visit_type_dec-Keeps : (u : Unicode) (f : ℕ) (d : VarDec) → Keeps (visit_type_dec u f d)
unfolding visit_type_dec
visit_type_dec-Keeps u f (id, type) = search base_rules depth 12

visit_var-Keeps : (u : Unicode) (f : ℕ) (d : VarDec) → Keeps (visit_var u f d)
unfolding visit_var
visit_var-Keeps u f (id, type) = search base_rules depth 12

resolve_reference-Keeps : (f t : ℕ) (n : TypeNode) → Keeps (resolve_reference f t n)
resolve_reference-Keeps f t (array_of b ds) = search parts_rules
resolve_reference-Keeps f t (open_array_of b ds) = search parts_rules
resolve_reference-Keeps f t (simple i s) = search parts_rules
resolve_reference-Keeps f t (enumerated s vs) = search parts_rules
resolve_reference-Keeps f t (record_of r) = search parts_rules
resolve_reference-Keeps f t (pointer_to none s) = search parts_rules
resolve_reference-Keeps f t (pointer_to (some r) s) = search parts_rules
resolve_reference-Keeps f t (procedure_of p) = search parts_rules
resolve_reference-Keeps f t (forward_of p) = search parts_rules
resolve_reference-Keeps f t (alias_of s i) = search parts_rules
resolve_reference-Keeps f t (module_of s) = search parts_rules

resolve_pointer-Keeps : (f t : ℕ) → Keeps (resolve_pointer f t)
unfolding resolve_pointer
resolve_pointer-Keeps f t = search (parts_rules, resolve_reference-Keeps)

no_pointers-Keeps : Keeps (State.change λ s. record s { pointer_types = [] })
no_pointers-Keeps = Keeps-change _ λ s. Later-same s _ refl refl refl refl

visit_vars-Keeps : (u : Unicode) (f : ℕ) (ds : List VarDec) → Keeps (visit_vars u f ds)
unfolding visit_vars
visit_vars-Keeps u f ds =
    let h = each-Keeps (visit_var u f) ds (visit_var-Keeps u f) in
    let g : (ts : List ℕ) → Keeps (each (resolve_pointer f) ts) =
      λ ts. each-Keeps (resolve_pointer f) ts (resolve_pointer-Keeps f) in
    search (parts_rules, no_pointers-Keeps)

pub if_there-Keeps :
    {A : Type 0} (g : A → Inspect (Unit {0})) (o : Option A)
    → ((a : A) → Keeps (g a))
    → Keeps (if_there g o)
if_there-Keeps g none h = search parts_rules
if_there-Keeps g (some a) h = h a

pub visit_declaration-Keeps :
    (u : Unicode) (f : ℕ) (d : AstDeclaration) → Keeps (visit_declaration u f d)
unfolding visit_declaration
visit_declaration-Keeps u f d =
    let h =
      if_there-Keeps (each (visit_const u f)) d.cnst
        λ cs. each-Keeps (visit_const u f) cs (visit_const-Keeps u f) in
    let g =
      if_there-Keeps (each (visit_type_dec u f)) d.type
        λ ts. each-Keeps (visit_type_dec u f) ts (visit_type_dec-Keeps u f) in
    let k = if_there-Keeps (visit_vars u f) d.var (visit_vars-Keeps u f) in search parts_rules

bound_node-Keeps : (n : TypeNode) → Keeps (bound_node n)
bound_node-Keeps (array_of b ds) = search parts_rules
bound_node-Keeps (open_array_of b ds) = search parts_rules
bound_node-Keeps (simple i s) = search parts_rules
bound_node-Keeps (enumerated s vs) = search parts_rules
bound_node-Keeps (record_of r) = search parts_rules
bound_node-Keeps (pointer_to r s) = search parts_rules
bound_node-Keeps (procedure_of p) = search parts_rules
bound_node-Keeps (forward_of p) = search parts_rules
bound_node-Keeps (alias_of s i) = search parts_rules
bound_node-Keeps (module_of s) = search parts_rules

bound_type-Keeps : (name : Text) (t : Option ℕ) → Keeps (bound_type name t)
bound_type-Keeps name none = search parts_rules
bound_type-Keeps name (some t) = search (parts_rules, bound_node-Keeps)

do_receiver-Keeps : (f : ℕ) (r : Option (AstIdentifier × AstIdentifier)) → Keeps (do_receiver f r)
unfolding do_receiver
do_receiver-Keeps f none = search parts_rules
do_receiver-Keeps f (some (id, type)) = search (parts_rules, bound_type-Keeps)

name_taken-Keeps : (name : Text) (o : Option ℕ) → Keeps (name_taken name o)
unfolding name_taken
name_taken-Keeps name none = search parts_rules
name_taken-Keeps name (some i) = search parts_rules

visit_return_type-Keeps :
    (u : Unicode) (f : ℕ) (t : Option AstType) → Keeps (visit_return_type u f t)
visit_return_type-Keeps u f none = search parts_rules
visit_return_type-Keeps u f (some t) = search base_rules

visit_params-Keeps : (u : Unicode) (f : ℕ) (ps : List VarDec) → Keeps (visit_params u f ps)
unfolding visit_params
visit_params-Keeps u f [] = search parts_rules
visit_params-Keeps u f ((id, type) ∷ ps) = let h = visit_params-Keeps u f ps in search base_rules

pub do_proc-Keeps : (u : Unicode) (f : ℕ) (p : AstProc) → Keeps (do_proc u f p)
unfolding do_proc
do_proc-Keeps u f p =
    search
      (
        parts_rules, name_taken-Keeps, visit_return_type-Keeps, do_receiver-Keeps,
        visit_params-Keeps,
      )
      depth 12

pub visit_forward-Keeps : (u : Unicode) (f : ℕ) (p : AstProc) → Keeps (visit_forward u f p)
unfolding visit_forward
visit_forward-Keeps u f p = search (parts_rules, do_proc-Keeps)

pub put_receiver-Keeps :
    (t : ℕ) (p : ProcedureNode) (r : Option (AstIdentifier × AstIdentifier))
    → Keeps (put_receiver t p r)
unfolding put_receiver
put_receiver-Keeps t p none = search parts_rules
put_receiver-Keeps t p (some (id, type)) = search parts_rules

revisit-Keeps : (u : Unicode) (f : ℕ) (id : AstIdentifier) (t : AstType) → Keeps (revisit u f id t)
revisit-Keeps u f id (AstType.named q) = search parts_rules
revisit-Keeps u f id (AstType.array ds t) = visit_type-Keeps u f _
revisit-Keeps u f id (AstType.record_type b fs) = visit_type-Keeps u f _
revisit-Keeps u f id (AstType.pointer_to t) = visit_type-Keeps u f _
revisit-Keeps u f id (AstType.enumeration ids) = visit_type-Keeps u f _

pub put_params-Keeps :
    (u : Unicode) (f : ℕ) (ps : List VarDec) (ts : List (ℕ × Bool)) → Keeps (put_params u f ps ts)
unfolding put_params
put_params-Keeps u f [] ts = search parts_rules
put_params-Keeps u f (p ∷ ps) [] = search parts_rules
put_params-Keeps u f ((id, type) ∷ ps) ((t, b) ∷ ts) =
    let h = put_params-Keeps u f ps ts in search (parts_rules, revisit-Keeps)

capture-Keeps : (name : Text) (o : Option ℕ) → Keeps (capture name o)
capture-Keeps name o = search parts_rules

pub captures-Keeps : (own : Text) (names : List Text) → Keeps (captures own names)
unfolding captures
captures-Keeps own [] = search parts_rules
captures-Keeps own (name ∷ names) =
    let h = captures-Keeps own names in search (parts_rules, capture-Keeps)

closures-Keeps :
    (name : Text) (cs : List (Text × List Attr))
    → Keeps (State.change λ s. record s { closures = s.closures ++ (name, cs) ∷ [] })
closures-Keeps name cs = Keeps-change _ λ s. Later-same s _ refl refl refl refl

pub put_closure-Keeps :
    (name : Text) (i : ℕ) (cs : List (Text × List Attr)) → Keeps (put_closure name i cs)
unfolding put_closure
put_closure-Keeps name i [] = search parts_rules
put_closure-Keeps name i (c ∷ cs) = search (parts_rules, closures-Keeps) depth 9
