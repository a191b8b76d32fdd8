-- ===== src/Ast/TypeExpr.antt =====
-- Types as they are written: src/compiler/ast/ast_type.hh.
use axcomp.Prelude.{List, Option}
use axcomp.Ast.Expr.{AstIdentifier, AstQualident, ArrayRef}

-- `ASTType_`; the dimensions of an array are a list of expressions as an `ArrayRef` is. `Fields` is
-- the vector of the fields of a record.
mutual
  pub data AstType : Type 0 where
    named : AstQualident → AstType
    array : ArrayRef → AstType → AstType
    record_type : Option AstQualident → Fields → AstType
    pointer_to : AstType → AstType
    enumeration : List AstIdentifier → AstType

  pub data Fields : Type 0 where
    no_fields : Fields
    field : AstIdentifier → AstType → Fields → Fields
