-- ===== src/Inspector.antt =====
-- The inspector, which checks the types of a module and notes what the generator of code reads:
-- src/compiler/inspector.hh and src/compiler/inspector.cc.
pub mod State
pub mod Words
pub mod Names
pub mod Fold
pub mod Designator
pub mod Calls
pub mod Expr
pub mod TypeExpr
pub mod Stmt
pub mod Modules
pub mod Decl
pub mod Keeps
pub mod Typing
