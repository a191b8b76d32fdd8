-- ===== src/Ast.antt =====
-- The syntax tree: src/compiler/ast/. The locations of the nodes are not in the model.
pub mod Expr
pub mod TypeExpr
pub mod Stmt
pub mod Decl
