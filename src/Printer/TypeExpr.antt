-- ===== src/Printer/TypeExpr.antt =====
-- Types as `ASTPrinter` prints them: src/compiler/printer.cc.
use axcomp.Prelude.{ℕ, List, [], ◌∷◌, ◌++◌, Option, none, some, Text, codes}
use axcomp.Attr.{attrs_text}
use axcomp.Lexer.Unicode.{Unicode}
use axcomp.Ast.Expr.{AstIdentifier, AstQualident, ArrayRef, no_indices, index}
use axcomp.Ast.TypeExpr.{
  AstType, named, array, record_type, pointer_to, enumeration, Fields, no_fields, field,
}
use axcomp.Printer.Expr.{◌<>◌, text, print_simple, qualident_text}
use axcomp.Printer.Level.{Print, ◌<+>◌, emit, shown, push, pop, indent}

-- The dimensions of an array, each with what stands behind it.
abbrev behind_dimension : ArrayRef → Text
behind_dimension no_indices = codes " "
behind_dimension (index _ _) = codes ", "

unfoldable pub print_dimensions : Unicode → ArrayRef → Option Text
print_dimensions u no_indices = text []
print_dimensions u (index e rest) =
    print_simple u e <> text (behind_dimension rest) <> print_dimensions u rest

-- `visit(ASTEnumeration)`
abbrev behind_value : List AstIdentifier → Text
behind_value [] = []
behind_value (_ ∷ _) = codes ", "

unfoldable pub values_text : List AstIdentifier → Text
values_text [] = []
values_text (id ∷ ids) = id.value ++ behind_value ids ++ values_text ids

abbrev pub base_text : Option AstQualident → Text
base_text none = []
base_text (some q) = codes " (" ++ qualident_text q ++ codes ")"

abbrev pub marked : AstIdentifier → Text
marked id = id.value ++ attrs_text id.attrs

-- What stands behind a field: the end of the record stands behind the last one, so that a record
-- without fields has none, and leaves the level raised.
abbrev pub behind_field : ℕ → Fields → Print
behind_field w no_fields = pop <+> emit (codes "\n") <+> indent w <+> emit (codes "END")
behind_field w (field _ _ _) = emit (codes ";\n")

unfoldable mutual
  pub print_type : Unicode → ℕ → AstType → Print
  print_type u w (named q) = emit (qualident_text q)
  print_type u w (array dims t) =
      emit (codes "ARRAY ")
      <+> shown (print_dimensions u dims)
      <+> emit (codes "OF ")
      <+> print_type u w t
  print_type u w (record_type base fs) =
      emit (codes "RECORD" ++ base_text base ++ codes "\n") <+> push <+> print_fields u w fs
  print_type u w (pointer_to t) = emit (codes "POINTER TO ") <+> print_type u w t
  print_type u w (enumeration ids) = emit (codes "(" ++ values_text ids ++ codes ")")

  -- The loop on the fields.
  pub print_fields : Unicode → ℕ → Fields → Print
  print_fields u w no_fields = emit []
  print_fields u w (field id t rest) =
      indent w
      <+> emit (marked id ++ codes ": ")
      <+> print_type u w t
      <+> behind_field w rest
      <+> print_fields u w rest
