-- ===== src/Ast/Decl.antt =====
-- Declarations and modules: src/compiler/ast/ast_decl.hh and src/compiler/ast/ast_module.hh.
use axcomp.Prelude.{List, Option, Text}
use axcomp.Ast.Expr.{AstIdentifier, AstExpr}
use axcomp.Ast.TypeExpr.{AstType}
use axcomp.Ast.Stmt.{Statements}

-- `VarDec`
abbrev pub VarDec : Type 0
VarDec = AstIdentifier × AstType

-- `ASTProc_`
pub record AstProc : Type 0 where
  pub name : AstIdentifier
  pub return_type : Option AstType
  pub receiver : Option (AstIdentifier × AstIdentifier)
  pub params : List VarDec

-- `ASTDeclaration_`: none is the null pointer.
pub record AstDeclaration : Type 0 where
  pub type : Option (List VarDec)
  pub cnst : Option (List (AstIdentifier × AstExpr))
  pub var : Option (List VarDec)

-- `ASTProcedure_` and `ASTProcedureForward_`
mutual
  pub data AstProcedure : Type 0 where
    procedure : AstProc → AstDeclaration → Procedures → Statements → AstProcedure
    forward : AstProc → AstProcedure

  pub data Procedures : Type 0 where
    no_procedures : Procedures
    proc : AstProcedure → Procedures → Procedures

-- `ASTModule_`; an import is the module's name and the name that stands for it, if another is given.
pub record AstModule : Type 0 where
  pub name : Text
  pub imports : Option (List (AstIdentifier × Option AstIdentifier))
  pub decs : AstDeclaration
  pub procedures : Procedures
  pub stats : Statements
