-- ===== src/Parser.antt =====
-- The parser: src/compiler/parser.hh and src/compiler/parser.cc, by recursive descent. Each procedure
-- takes fuel for the procedures and the turns of loops that it leads to, one within the other.
pub mod State
pub mod Basic
pub mod Expr
pub mod TypeExpr
pub mod Stmt
pub mod Decl
pub mod Module
pub mod Definition
pub mod Literals
pub mod Names
pub mod Ends
