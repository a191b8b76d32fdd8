-- ===== src/Lexer/Comments.antt =====
-- Comments: the recursion of `get_comment` in src/compiler/lexer.cc against a count of the open
-- comments.
pub mod Depth
pub mod Nesting
