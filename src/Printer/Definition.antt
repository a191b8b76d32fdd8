-- ===== src/Printer/Definition.antt =====
-- Definition files as DefPrinter prints them: src/compiler/defprinter.cc.
use axcomp.Prelude.{ℕ, List, [], ◌∷◌, ◌++◌, Bool, true, false, ◌||◌, if◌then◌else◌, Text, codes}
use axcomp.Attr.{has_attr, global, read_only}
use axcomp.Lexer.Unicode.{Unicode}
use axcomp.Ast.Expr.{AstIdentifier, AstExpr}
use axcomp.Ast.Decl.{
  VarDec, AstProc, AstDeclaration, AstProcedure, procedure, forward, Procedures, no_procedures,
  proc, AstModule,
}
use axcomp.Printer.Expr.{print_expr}
use axcomp.Printer.Level.{Print, ◌<+>◌, emit, shown}
use axcomp.Printer.TypeExpr.{print_type, marked}
use axcomp.Printer.Decl.{if_some, proc_header, print_params, parenthesised_params}

abbrev pub is_global : AstIdentifier → Bool
is_global id = has_attr global id.attrs

abbrev pub is_visible : AstIdentifier → Bool
is_visible id = has_attr global id.attrs || has_attr read_only id.attrs

-- The heading, unless it is printed already.
abbrev pub heading : Text → Bool → Text
heading s print_hdr = if print_hdr then [] else s

-- The loops on the constants and on the pairs of a name and a type.
unfoldable pub const_items : Unicode → Bool → List (AstIdentifier × AstExpr) → Print
const_items u print_hdr [] = emit []
const_items u print_hdr ((id, e) ∷ rest) =
    if is_global id
    then (emit (heading (codes "CONST\n") print_hdr ++ marked id ++ codes " = ")
        <+> shown (print_expr u e)
        <+> emit (codes ";\n")
        <+> const_items u true rest)
    else const_items u print_hdr rest

unfoldable pub typed_items : Unicode → ℕ → Text → Text → Bool → List VarDec → Print
typed_items u w title sep print_hdr [] = emit []
typed_items u w title sep print_hdr ((id, t) ∷ rest) =
    if is_visible id
    then (emit (heading title print_hdr ++ marked id ++ sep)
        <+> print_type u w t
        <+> emit (codes ";\n")
        <+> typed_items u w title sep true rest)
    else typed_items u w title sep print_hdr rest

unfoldable pub print_declaration : Unicode → ℕ → AstDeclaration → Print
print_declaration u w d =
    if_some (const_items u false) d.cnst
    <+> if_some (typed_items u w (codes "TYPE\n") (codes " = ") false) d.type
    <+> if_some (typed_items u w (codes "VAR\n") (codes ": ") false) d.var

unfoldable pub print_procedure : Unicode → ℕ → AstProcedure → Print
print_procedure u w (forward p) = proc_header u w p true
print_procedure u w (procedure p decs ps ss) =
    emit (codes "PROCEDURE " ++ marked p.name)
    <+> parenthesised_params p.params p.return_type (print_params u w p.params)
    <+> if_some (λ t. emit (codes ": ") <+> print_type u w t) p.return_type
    <+> emit (codes ";\n")

abbrev pub heading_of : AstProcedure → AstProc
heading_of (procedure p decs ps ss) = p
heading_of (forward p) = p

-- The loop on the procedures.
unfoldable pub print_procedures : Unicode → ℕ → Procedures → Print
print_procedures u w no_procedures = emit []
print_procedures u w (proc p rest) =
    if is_global (heading_of p).name
    then (print_procedure u w p <+> print_procedures u w rest)
    else print_procedures u w rest

unfoldable pub print_module : Unicode → ℕ → AstModule → Print
print_module u w m =
    emit (codes "DEFINITION " ++ m.name ++ codes ";\n")
    <+> print_declaration u w m.decs
    <+> print_procedures u w m.procedures
    <+> emit (codes "END " ++ m.name ++ codes ".\n")
