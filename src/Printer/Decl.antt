-- ===== src/Printer/Decl.antt =====
-- Declarations and modules as `ASTPrinter` prints them: src/compiler/printer.cc.
use axcomp.Prelude.{
  ℕ, List, [], ◌∷◌, ◌++◌, Bool, true, false, Option, none, some, if◌then◌else◌, ltb, Text, codes,
}
use axcomp.Attr.{Attr, has_attr}
use axcomp.Lexer.Unicode.{Unicode}
use axcomp.Ast.Expr.{AstIdentifier, AstExpr}
use axcomp.Ast.TypeExpr.{AstType}
use axcomp.Ast.Stmt.{Statements}
use axcomp.Ast.Decl.{
  VarDec, AstProc, AstDeclaration, AstProcedure, procedure, forward, Procedures, no_procedures,
  proc, AstModule,
}
use axcomp.Printer.Expr.{print_expr}
use axcomp.Printer.Level.{Print, ◌<+>◌, emit, shown, push, pop, indent}
use axcomp.Printer.TypeExpr.{print_type, marked}
use axcomp.Printer.Stmt.{print_stats, unless_empty}

-- The loops on the imports, the constants and the pairs of a name and a type.
abbrev pub alias_text : Option AstIdentifier → Text
alias_text none = []
alias_text (some id) = id.value ++ codes " := "

abbrev pub behind_import : List (AstIdentifier × Option AstIdentifier) → Text
behind_import [] = []
behind_import (_ ∷ _) = codes ",\n"

unfoldable pub import_items : ℕ → List (AstIdentifier × Option AstIdentifier) → Print
import_items w [] = emit []
import_items w ((id, alias) ∷ rest) =
    emit (alias_text alias ++ id.value ++ behind_import rest) <+> indent w <+> import_items w rest

unfoldable pub print_import : ℕ → List (AstIdentifier × Option AstIdentifier) → Print
print_import w [] = emit []
print_import w (i ∷ is) =
    indent w <+> emit (codes "IMPORT ") <+> import_items w (i ∷ is) <+> emit (codes ";\n")

unfoldable pub const_items : Unicode → ℕ → List (AstIdentifier × AstExpr) → Print
const_items u w [] = emit []
const_items u w ((id, e) ∷ rest) =
    indent w
    <+> emit (marked id ++ codes " = ")
    <+> shown (print_expr u e)
    <+> emit (codes ";\n")
    <+> const_items u w rest

unfoldable pub print_const : Unicode → ℕ → List (AstIdentifier × AstExpr) → Print
print_const u w [] = emit []
print_const u w (c ∷ cs) =
    indent w <+> emit (codes "CONST\n") <+> push <+> const_items u w (c ∷ cs) <+> pop

unfoldable pub typed_items : Unicode → ℕ → Text → List VarDec → Print
typed_items u w sep [] = emit []
typed_items u w sep ((id, t) ∷ rest) =
    indent w
    <+> emit (marked id ++ sep)
    <+> print_type u w t
    <+> emit (codes ";\n")
    <+> typed_items u w sep rest

unfoldable pub print_typedec : Unicode → ℕ → List VarDec → Print
print_typedec u w [] = emit []
print_typedec u w (d ∷ ds) =
    indent w <+> emit (codes "TYPE\n") <+> push <+> typed_items u w (codes " = ") (d ∷ ds) <+> pop

unfoldable pub print_var : Unicode → ℕ → List VarDec → Print
print_var u w [] = emit []
print_var u w (d ∷ ds) =
    indent w <+> emit (codes "VAR\n") <+> push <+> typed_items u w (codes ": ") (d ∷ ds) <+> pop

abbrev pub if_some : {A : Type 0} → (A → Print) → Option A → Print
if_some p none = emit []
if_some p (some a) = p a

unfoldable pub print_declaration : Unicode → ℕ → AstDeclaration → Print
print_declaration u w d =
    if_some (print_const u w) d.cnst
    <+> if_some (print_typedec u w) d.type
    <+> if_some (print_var u w) d.var

-- `proc_rec`
abbrev pub var_text : AstIdentifier → Text
var_text id = if has_attr Attr.var id.attrs then codes "VAR " else []

abbrev pub receiver_text : Option (AstIdentifier × AstIdentifier) → Text
receiver_text none = []
receiver_text (some (id, type)) =
    codes "(" ++ var_text id ++ id.value ++ codes " : " ++ type.value ++ codes ") "

-- `proc_header`
abbrev pub behind_param : List VarDec → Text
behind_param [] = []
behind_param (_ ∷ _) = codes "; "

unfoldable pub print_params : Unicode → ℕ → List VarDec → Print
print_params u w [] = emit []
print_params u w ((id, t) ∷ rest) =
    emit (var_text id ++ id.value ++ codes " : ")
    <+> print_type u w t
    <+> emit (behind_param rest)
    <+> print_params u w rest

abbrev pub parenthesised_params : List VarDec → Option AstType → Print → Print
parenthesised_params [] none p = emit []
parenthesised_params [] (some t) p = emit (codes "(") <+> p <+> emit (codes ")")
parenthesised_params (d ∷ ds) t p = emit (codes "(") <+> p <+> emit (codes ")")

unfoldable pub proc_header : Unicode → ℕ → AstProc → Bool → Print
proc_header u w p is_forward =
    indent w
    <+> emit (
        codes "PROCEDURE "
        ++ (if is_forward then codes "^ " else [])
        ++ receiver_text p.receiver
        ++ marked p.name)
    <+> parenthesised_params p.params p.return_type (print_params u w p.params)
    <+> if_some (λ t. emit (codes ": ") <+> print_type u w t) p.return_type
    <+> emit (codes ";\n")

abbrev pub body_part : Unicode → ℕ → Statements → Print → Print
body_part u w ss begin = unless_empty ss (begin <+> push <+> print_stats u w ss <+> pop)

unfoldable mutual
  pub print_procedure : Unicode → ℕ → AstProcedure → Print
  print_procedure u w (forward p) = proc_header u w p true
  print_procedure u w (procedure p decs ps ss) =
      proc_header u w p false
      <+> push
      <+> print_declaration u w decs
      <+> print_procedures u w [] ps
      <+> pop
      <+> body_part u w ss (indent w <+> emit (codes "BEGIN\n"))
      <+> indent w
      <+> emit (codes "END " ++ p.name.value ++ codes ";\n")

  -- The loop on the procedures, with what stands behind each.
  pub print_procedures : Unicode → ℕ → Text → Procedures → Print
  print_procedures u w behind_each no_procedures = emit []
  print_procedures u w behind_each (proc p rest) =
      print_procedure u w p <+> emit behind_each <+> print_procedures u w behind_each rest

unfoldable pub print_module : Unicode → ℕ → AstModule → Print
print_module u w m =
    let line = if ltb 0 w then codes "\n" else [] in
    emit (codes "MODULE " ++ m.name ++ codes ";\n")
    <+> if_some (print_import w) m.imports
    <+> push
    <+> print_declaration u w m.decs
    <+> emit line
    <+> print_procedures u w line m.procedures
    <+> pop
    <+> body_part u w m.stats (emit (codes "BEGIN\n"))
    <+> emit (codes "END " ++ m.name ++ codes ".\n")
