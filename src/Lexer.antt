-- ===== src/Lexer.antt =====
-- src/compiler/lexer.hh and src/compiler/lexer.cc: the class `LexerUTF8`.
pub mod Unicode
pub mod Tables
pub mod State
pub mod Skip
pub mod Scan
pub mod Directive
pub mod Tokenize
pub mod Ends
pub mod Stack
pub mod Keywords
pub mod Comments
pub mod EndOfText
