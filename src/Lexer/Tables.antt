-- ===== src/Lexer/Tables.antt =====
-- The two tables of src/compiler/lexer.cc: keywords and tokens of a single character.
use axcomp.Prelude.{ℕ, List, [], ◌∷◌, Option, none, some, ◌==◌, if◌then◌else◌, Text, text_eq, codes}
use axcomp.Token.{
  TokenType, Token, bare, spelled, eof, semicolon, comma, plus, dash, asterix, l_paren, r_paren,
  equals, hash, tilde, ampersand, l_bracket, r_bracket, bar, slash, caret, l_brace, r_brace,
  kw_module, kw_begin, kw_end, kw_div, kw_mod, kw_const, kw_type, kw_var, kw_return, kw_procedure,
  kw_true, kw_false, kw_or, kw_if, kw_then, kw_elsif, kw_else, kw_for, kw_to, kw_by, kw_do,
  kw_while, kw_repeat, kw_until, kw_loop, kw_exit, kw_array, kw_of, kw_record, kw_definition,
  kw_import, kw_case, kw_pointer, kw_nil, kw_in,
}

abbrev keyword : TokenType → Text → Text × Token
keyword t s = (s, spelled t s)

-- `keyword_map`
abbrev pub keyword_map : List (Text × Token)
keyword_map =
    keyword kw_module (codes "MODULE")
    ∷ keyword kw_begin (codes "BEGIN")
    ∷ keyword kw_end (codes "END")
    ∷ keyword kw_div (codes "DIV")
    ∷ keyword kw_mod (codes "MOD")
    ∷ keyword kw_const (codes "CONST")
    ∷ keyword kw_type (codes "TYPE")
    ∷ keyword kw_var (codes "VAR")
    ∷ keyword kw_return (codes "RETURN")
    ∷ keyword kw_procedure (codes "PROCEDURE")
    ∷ keyword kw_true (codes "TRUE")
    ∷ keyword kw_false (codes "FALSE")
    ∷ keyword kw_or (codes "OR")
    ∷ keyword kw_if (codes "IF")
    ∷ keyword kw_then (codes "THEN")
    ∷ keyword kw_elsif (codes "ELSIF")
    ∷ keyword kw_else (codes "ELSE")
    ∷ keyword kw_for (codes "FOR")
    ∷ keyword kw_to (codes "TO")
    ∷ keyword kw_by (codes "BY")
    ∷ keyword kw_do (codes "DO")
    ∷ keyword kw_while (codes "WHILE")
    ∷ keyword kw_repeat (codes "REPEAT")
    ∷ keyword kw_until (codes "UNTIL")
    ∷ keyword kw_loop (codes "LOOP")
    ∷ keyword kw_exit (codes "EXIT")
    ∷ keyword kw_array (codes "ARRAY")
    ∷ keyword kw_of (codes "OF")
    ∷ keyword kw_record (codes "RECORD")
    ∷ keyword kw_definition (codes "DEFINITION")
    ∷ keyword kw_import (codes "IMPORT")
    ∷ keyword kw_case (codes "CASE")
    ∷ keyword kw_pointer (codes "POINTER")
    ∷ keyword kw_nil (codes "NIL")
    ∷ keyword kw_in (codes "IN")
    ∷ []

-- `single_tokens`. A `char` is its byte, so the key -1 is 255.
abbrev pub single_tokens : List (ℕ × Token)
single_tokens =
    (255, bare eof)
    ∷ (b';', spelled semicolon (codes ";"))
    ∷ (b',', spelled comma (codes ","))
    ∷ (b'+', spelled plus (codes "+"))
    ∷ (b'-', spelled dash (codes "-"))
    ∷ (b'*', spelled asterix (codes "*"))
    ∷ (b'(', spelled l_paren (codes "("))
    ∷ (b')', spelled r_paren (codes ")"))
    ∷ (b'=', spelled equals (codes "="))
    ∷ (b'#', spelled hash (codes "#"))
    ∷ (b'~', spelled tilde (codes "~"))
    ∷ (b'&', spelled ampersand (codes "&"))
    ∷ (b'[', spelled l_bracket (codes "["))
    ∷ (b']', spelled r_bracket (codes "]"))
    ∷ (b'|', spelled bar (codes "|"))
    ∷ (b'/', spelled slash (codes "/"))
    ∷ (b'^', spelled caret (codes "^"))
    ∷ (b'{', spelled l_brace (codes "{"))
    ∷ (b'}', spelled r_brace (codes "}"))
    ∷ []

-- `find` of a `std::map`: no key occurs twice.
unfoldable pub find_keyword : Text → List (Text × Token) → Option Token
find_keyword s [] = none
find_keyword s ((k, t) ∷ m) = if text_eq k s then some t else find_keyword s m

unfoldable pub find_single : ℕ → List (ℕ × Token) → Option Token
find_single c [] = none
find_single c ((k, t) ∷ m) = if k == c then some t else find_single c m
