-- ===== src/Lexer/Ends.antt =====
-- Every loop of the lexer ends: with more fuel than characters no call runs out of it, and no call
-- gives characters back beyond those that it was handed.
pub mod Skip
pub mod Scan
pub mod Directive
pub mod Token
