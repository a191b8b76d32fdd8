-- ===== src/Tests/Parsing.antt =====
-- The parser at concrete texts: src/compiler/parser.cc.
use axcomp.Prelude.{
  ◌<◌, ◌≡◌, ◌≢◌, refl, arith, true, List, [], ◌∷◌, ◌++◌, codes, none, String, if◌then◌else◌,
}
use axcomp.Error.{ok, err, out_of_fuel, parse, Ends}
use axcomp.Token.{Token, spelled, bare, ident, period, kw_else, assign, type_name, token_text}
use axcomp.Lexer.State.{Lexer, available, get_location}
use axcomp.Lexer.Tokenize
use axcomp.Lexer.Tokenize.{push_token}
use axcomp.SymbolTable.Frames
use axcomp.SymbolTable.Frames.Invariant.{IsValid}
use axcomp.Ast.Expr.{designator, no_selectors, integer}
use axcomp.Parser.State.{Library, Stod, value, State}
use axcomp.Parser.Basic.{identifier, parse_qualident, parse_integer}
use axcomp.Parser.State as Parsing
use axcomp.Parser.Expr.{parse_designator, parse_selectors, selectors_of}
use axcomp.Parser.Stmt.{parse_designated}
use axcomp.Parser.Module.{parse_module}
use axcomp.Parser.Basic.{long_max}
use axcomp.Parser.Literals.{
  spelling, number_token, parse_integer-integer_text, parse_integer-too_large,
}
use axcomp.Parser.Names.{parse_qualident-cases, parse_designated-refused}
use axcomp.Parser.Ends.Module.{parse_module-Ends}
use axcomp.Parser.Definition
use axcomp.Parser.Ends.Definition.{parse_definition-Ends}
use axcomp.Printer.Expr.{integer_text}
use axcomp.Tests.Ascii.{ascii, ascii-IsUnicode}

abbrev libraries : Library
libraries = record { unicode = ascii; stod = λ s. value 0 }

abbrev source : String → State
source s = record { lexer = Tokenize.initial (codes s) none; symbols = Frames.initial }

abbrev program : String
program = "MODULE a; PROCEDURE f; BEGIN RETURN END f; BEGIN x := f(1) END a."

parse_module-Ends_example :
    Ends
      (λ r.
        (available r.1.lexer < available (source program).lexer)
        × (r.1.symbols.frame_stack ≡ (source program).symbols.frame_stack)
        × (IsValid (source program).symbols → IsValid r.1.symbols))
      (parse_module libraries 2000 (source program))
    × (parse_module libraries 2000 (source program) ≢ out_of_fuel)
unfolding available Tokenize.initial
parse_module-Ends_example =
    parse_module-Ends libraries ascii-IsUnicode 2000 (source program) (omega arith)

-- A lexer with nothing but tokens that were put back.
abbrev tokens : List Token → Lexer
tokens ts = record {
  rest = [];
  next_token = ts;
  line_no = 1;
  char_pos = 0;
  last_char = 0;
  output_main = none;
}

abbrev at_tokens : List Token → State
at_tokens ts = record { lexer = tokens ts; symbols = Frames.initial }

abbrev name : String → Token
name s = spelled ident (codes s)

parse_qualident-cases_example :
    parse_qualident libraries (at_tokens (name "b" ∷ spelled period (codes ".") ∷ name "c" ∷ []))
    ≡ ok (
      record { qual = []; id = identifier (codes "b") },
      at_tokens (spelled period (codes ".") ∷ name "c" ∷ []),
    )
unfolding Tokenize.get_token push_token Frames.find Frames.initial Frames.push_frame
    axcomp.SymbolTable.Store.find axcomp.SymbolTable.Map.lookup
parse_qualident-cases_example =
    parse_qualident-cases libraries
      (at_tokens (name "b" ∷ spelled period (codes ".") ∷ name "c" ∷ [])) (name "b")
      (spelled period (codes ".")) (name "c") (tokens (spelled period (codes ".") ∷ name "c" ∷ []))
      (tokens (name "c" ∷ [])) (tokens []) none Frames.initial refl refl refl refl refl refl refl

parse_designated-refused_example :
    parse_designated libraries 3 (at_tokens (name "p" ∷ bare kw_else ∷ []))
    ≡ err (
        parse (get_location (tokens [])) (
          codes "Unexpected token: "
          ++ token_text (bare kw_else)
          ++ codes " - expecting "
          ++ type_name assign))
unfolding Tokenize.get_token Tokenize.peek_token push_token parse_designator parse_selectors
    selectors_of parse_qualident Parsing.get_token Parsing.next Parsing.peek axcomp.Token.ordinal
parse_designated-refused_example =
    parse_designated-refused libraries 3 (at_tokens (name "p" ∷ bare kw_else ∷ []))
      (at_tokens (bare kw_else ∷ []))
      (designator (record { qual = []; id = identifier (codes "p") }) no_selectors) (bare kw_else)
      (tokens []) refl refl refl

parse_integer-integer_text_example :
    (integer_text 51966 true ≡ spelling 51966 true ++ (if true then codes "H" else []))
    × (parse_integer libraries (at_tokens (number_token 51966 true ∷ []))
        ≡ ok (integer 51966 true, at_tokens []))
unfolding push_token
parse_integer-integer_text_example =
    parse_integer-integer_text libraries 51966 true (at_tokens []) (omega arith)

parse_integer-too_large_example :
    parse_integer libraries (at_tokens (number_token 9223372036854775808 true ∷ []))
    ≡ ok (integer long_max true, at_tokens [])
unfolding push_token
parse_integer-too_large_example =
    parse_integer-too_large libraries 9223372036854775808 true (at_tokens []) (omega arith)

abbrev definition_file : String
definition_file =
    "DEFINITION b; CONST n* = 3; VAR v-: REAL; PROCEDURE f*(VAR x : CHAR): CHAR; END b."

parse_definition-Ends_example :
    Ends
      (λ r.
        (available r.1.lexer < available (source definition_file).lexer)
        × (r.1.symbols.frame_stack ≡ (source definition_file).symbols.frame_stack)
        × (IsValid (source definition_file).symbols → IsValid r.1.symbols))
      (Definition.parse_module libraries 2000 (source definition_file))
    × (Definition.parse_module libraries 2000 (source definition_file) ≢ out_of_fuel)
unfolding available Tokenize.initial
parse_definition-Ends_example =
    parse_definition-Ends libraries ascii-IsUnicode 2000 (source definition_file) (omega arith)
