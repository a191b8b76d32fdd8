-- ===== src/Printer.antt =====
-- `ASTPrinter` of src/compiler/printer.hh and src/compiler/printer.cc, which prints a syntax tree as a
-- program.
pub mod Expr
pub mod Level
pub mod TypeExpr
pub mod Levels
pub mod Stmt
pub mod Decl
pub mod Definition
pub mod Exports
