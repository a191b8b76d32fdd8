-- ===== src/Ast/Stmt.antt =====
-- Statements: src/compiler/ast/ast_stmt.hh.
use axcomp.Prelude.{Option}
use axcomp.Ast.Expr.{AstIdentifier, AstExpr, AstSimpleExpr, AstDesignator, AstCall, Labels}

-- The classes below `ASTStatement_`. `Elsifs` is the vector of the `IFClause`s behind the first.
mutual
  pub data AstStatement : Type 0 where
    assignment : AstDesignator → AstExpr → AstStatement
    return_stat : Option AstExpr → AstStatement
    exit : AstStatement
    call_stat : AstCall → AstStatement
    if_stat : AstExpr → Statements → Elsifs → ElseClause → AstStatement
    case_stat : AstSimpleExpr → CaseElements → Statements → AstStatement
    for_stat : AstIdentifier → AstExpr → AstExpr → Option AstExpr → Statements → AstStatement
    while_stat : AstExpr → Statements → AstStatement
    repeat_stat : Statements → AstExpr → AstStatement
    loop : Statements → AstStatement
    block : Statements → AstStatement

  pub data Statements : Type 0 where
    no_stats : Statements
    stat : AstStatement → Statements → Statements

  pub data Elsifs : Type 0 where
    no_elsifs : Elsifs
    elsif : AstExpr → Statements → Elsifs → Elsifs

  pub data ElseClause : Type 0 where
    no_else : ElseClause
    else_clause : Statements → ElseClause

  pub data CaseElements : Type 0 where
    no_elements : CaseElements
    element : Labels → Statements → CaseElements → CaseElements
