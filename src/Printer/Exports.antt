-- ===== src/Printer/Exports.antt =====
-- What a definition file shows of a module: src/compiler/defprinter.cc.
use axcomp.Prelude.{
  ℕ, ◌≡◌, refl, List, [], ◌∷◌, Bool, true, false, Option, none, some, if◌then◌else◌, Text, codes,
  Bool-cases, inl, inr,
}
use axcomp.Lexer.Unicode.{Unicode}
use axcomp.Ast.Expr.{AstIdentifier, AstExpr}
use axcomp.Ast.Stmt.{no_stats}
use axcomp.Ast.Decl.{
  VarDec, AstProcedure, procedure, forward, Procedures, no_procedures, proc, AstModule,
}
use axcomp.Printer.Level.{Print}
use axcomp.Printer.Decl.{if_some}
use axcomp.Printer.Definition.{
  is_global, is_visible, const_items, typed_items, print_declaration, print_procedure, heading_of,
  print_procedures, print_module,
}

-- What is left of a module if all is taken away that is not marked for export: the other names, the
-- imports, the statements, and what stands in a procedure.
unfoldable pub kept_consts : List (AstIdentifier × AstExpr) → List (AstIdentifier × AstExpr)
kept_consts [] = []
kept_consts ((id, e) ∷ rest) =
    let kept = kept_consts rest in if is_global id then (id, e) ∷ kept else kept

unfoldable pub kept_names : List VarDec → List VarDec
kept_names [] = []
kept_names ((id, t) ∷ rest) =
    let kept = kept_names rest in if is_visible id then (id, t) ∷ kept else kept

abbrev pub without_body : AstProcedure → AstProcedure
without_body (forward p) = forward p
without_body (procedure p decs ps ss) =
    procedure p (record { type = none; cnst = none; var = none }) no_procedures no_stats

unfoldable pub kept_procedures : Procedures → Procedures
kept_procedures no_procedures = no_procedures
kept_procedures (proc p rest) =
    let kept = kept_procedures rest in
    if is_global (heading_of p).name then proc (without_body p) kept else kept

abbrev pub kept_in : {A : Type 0} → (A → A) → Option A → Option A
kept_in f none = none
kept_in f (some a) = some (f a)

abbrev pub exports : AstModule → AstModule
exports m = record {
  name = m.name;
  imports = none;
  decs = record {
    type = kept_in kept_names m.decs.type;
    cnst = kept_in kept_consts m.decs.cnst;
    var = kept_in kept_names m.decs.var;
  };
  procedures = kept_procedures m.procedures;
  stats = no_stats;
}

const_items-kept :
    (u : Unicode) (b : Bool) (cs : List (AstIdentifier × AstExpr))
    → const_items u b (kept_consts cs) ≡ const_items u b cs
unfolding const_items kept_consts
const_items-kept u b [] = refl
const_items-kept u b ((id, e) ∷ rest) = elim (Bool-cases (is_global id)) [
  | inl shown ↦ rw shown (rw (shown, const_items-kept u true rest) refl)
  | inr hidden ↦ rw hidden (const_items-kept u b rest)
]

typed_items-kept :
    (u : Unicode) (w : ℕ) (title sep : Text) (b : Bool) (ds : List VarDec)
    → typed_items u w title sep b (kept_names ds) ≡ typed_items u w title sep b ds
unfolding typed_items kept_names
typed_items-kept u w title sep b [] = refl
typed_items-kept u w title sep b ((id, t) ∷ rest) = elim (Bool-cases (is_visible id)) [
  | inl shown ↦ rw shown (rw (shown, typed_items-kept u w title sep true rest) refl)
  | inr hidden ↦ rw hidden (typed_items-kept u w title sep b rest)
]

print_procedure-without_body :
    (u : Unicode) (w : ℕ) (p : AstProcedure)
    → print_procedure u w (without_body p) ≡ print_procedure u w p
unfolding print_procedure
print_procedure-without_body u w (forward p) = refl
print_procedure-without_body u w (procedure p decs ps ss) = refl

heading_of-without_body : (p : AstProcedure) → heading_of (without_body p) ≡ heading_of p
heading_of-without_body (forward p) = refl
heading_of-without_body (procedure p decs ps ss) = refl

print_procedures-kept :
    (u : Unicode) (w : ℕ) (ps : Procedures)
    → print_procedures u w (kept_procedures ps) ≡ print_procedures u w ps
unfolding print_procedures kept_procedures
print_procedures-kept u w no_procedures = refl
print_procedures-kept u w (proc p rest) = elim (Bool-cases (is_global (heading_of p).name)) [
  | inl shown ↦ rw shown (
      rw
        (
          heading_of-without_body p,
          shown,
          print_procedure-without_body u w p,
          print_procedures-kept u w rest,
        )
        refl)
  | inr hidden ↦ rw hidden (print_procedures-kept u w rest)
]

if_some-kept :
    {A : Type 0} (p : A → Print) (f : A → A) (o : Option A)
    → ((a : A) → p (f a) ≡ p a)
    → if_some p (kept_in f o) ≡ if_some p o
if_some-kept p f none h = refl
if_some-kept p f (some a) h = h a

-- A definition file shows no more than what is marked for export: it is the same for a module that has
-- only that, without imports, statements and what stands in a procedure.
pub print_module-exports :
    (u : Unicode) (w : ℕ) (m : AstModule) → print_module u w (exports m) ≡ print_module u w m
unfolding print_module print_declaration
print_module-exports u w m =
    rw
      (
        if_some-kept (const_items u false) kept_consts m.decs.cnst (const_items-kept u false),
        if_some-kept (typed_items u w (codes "TYPE\n") (codes " = ") false) kept_names m.decs.type
            (typed_items-kept u w (codes "TYPE\n") (codes " = ") false),
        if_some-kept (typed_items u w (codes "VAR\n") (codes ": ") false) kept_names m.decs.var
            (typed_items-kept u w (codes "VAR\n") (codes ": ") false),
        print_procedures-kept u w m.procedures,
      )
      refl
