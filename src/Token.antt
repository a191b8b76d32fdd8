-- ===== src/Token.antt =====
-- Tokens: src/compiler/token.hh and src/compiler/token.cc.
-- A keyword's constructor is the source's with `kw_` before it, since several are reserved here.
pub mod Enumeration
use axcomp.Prelude.{decimal, ℕ, ◌+◌, Bool, ◌==◌, Text, codes, ◌++◌, [], ◌∷◌}

-- `enum class TokenType`
pub data TokenType : Type 0 where
  null eof ident semicolon period comma plus dash asterix l_paren r_paren equals colon : TokenType
  assign hash less leq greater gteq tilde ampersand l_bracket r_bracket dotdot bar : TokenType
  slash caret l_brace r_brace integer hexinteger real chr hexchr string : TokenType
  kw_module kw_begin kw_end kw_div kw_mod kw_const kw_type : TokenType
  kw_var kw_return kw_procedure kw_true kw_false kw_or kw_if : TokenType
  kw_then kw_elsif kw_else kw_for kw_to kw_by kw_do : TokenType
  kw_while kw_repeat kw_until kw_loop kw_exit kw_array kw_of : TokenType
  kw_record kw_definition kw_import kw_case kw_pointer kw_nil kw_in : TokenType

-- The underlying `std::uint8_t` of the enumeration.
unfoldable pub ordinal : TokenType → ℕ
ordinal null = 0
ordinal eof = 1
ordinal ident = 2
ordinal semicolon = 3
ordinal period = 4
ordinal comma = 5
ordinal plus = 6
ordinal dash = 7
ordinal asterix = 8
ordinal l_paren = 9
ordinal r_paren = 10
ordinal equals = 11
ordinal colon = 12
ordinal assign = 13
ordinal hash = 14
ordinal less = 15
ordinal leq = 16
ordinal greater = 17
ordinal gteq = 18
ordinal tilde = 19
ordinal ampersand = 20
ordinal l_bracket = 21
ordinal r_bracket = 22
ordinal dotdot = 23
ordinal bar = 24
ordinal slash = 25
ordinal caret = 26
ordinal l_brace = 27
ordinal r_brace = 28
ordinal integer = 29
ordinal hexinteger = 30
ordinal real = 31
ordinal chr = 32
ordinal hexchr = 33
ordinal string = 34
ordinal kw_module = 35
ordinal kw_begin = 36
ordinal kw_end = 37
ordinal kw_div = 38
ordinal kw_mod = 39
ordinal kw_const = 40
ordinal kw_type = 41
ordinal kw_var = 42
ordinal kw_return = 43
ordinal kw_procedure = 44
ordinal kw_true = 45
ordinal kw_false = 46
ordinal kw_or = 47
ordinal kw_if = 48
ordinal kw_then = 49
ordinal kw_elsif = 50
ordinal kw_else = 51
ordinal kw_for = 52
ordinal kw_to = 53
ordinal kw_by = 54
ordinal kw_do = 55
ordinal kw_while = 56
ordinal kw_repeat = 57
ordinal kw_until = 58
ordinal kw_loop = 59
ordinal kw_exit = 60
ordinal kw_array = 61
ordinal kw_of = 62
ordinal kw_record = 63
ordinal kw_definition = 64
ordinal kw_import = 65
ordinal kw_case = 66
ordinal kw_pointer = 67
ordinal kw_nil = 68
ordinal kw_in = 69

-- `==` of the enumeration
abbrev pub type_eq : TokenType → TokenType → Bool
unfolding ordinal
type_eq a b = ordinal a == ordinal b

-- `string(TokenType)`: what the map holds, and `Unknown token` for a type that it lacks.
unfoldable pub type_name : TokenType → Text
type_name null = codes "null"
type_name eof = codes "EOF"
type_name ident = codes "indent"
type_name semicolon = codes "semicolon"
type_name period = codes "period"
type_name comma = codes ","
type_name plus = codes "+"
type_name dash = codes "-"
type_name asterix = codes "*"
type_name l_paren = codes "("
type_name r_paren = codes ")"
type_name equals = codes "="
type_name colon = codes ":"
type_name assign = codes ":="
type_name hash = codes "#"
type_name less = codes "<"
type_name leq = codes "<="
type_name greater = codes ">"
type_name gteq = codes ">="
type_name tilde = codes "~"
type_name ampersand = codes "&"
type_name l_bracket = codes "["
type_name r_bracket = codes "]"
type_name dotdot = codes ".."
type_name bar = codes "|"
type_name slash = codes "/"
type_name caret = codes "^"
type_name l_brace = codes "{"
type_name r_brace = codes "}"
type_name integer = codes "integer"
type_name hexinteger = codes "hexinteger"
type_name real = codes "Unknown token"
type_name chr = codes "chr"
type_name hexchr = codes "hexchr"
type_name string = codes "string"
type_name kw_module = codes "MODULE"
type_name kw_begin = codes "BEGIN"
type_name kw_end = codes "END"
type_name kw_div = codes "DIV"
type_name kw_mod = codes "MOD"
type_name kw_const = codes "CONST"
type_name kw_type = codes "TYPE"
type_name kw_var = codes "VAR"
type_name kw_return = codes "RETURN"
type_name kw_procedure = codes "PROCEDURE"
type_name kw_true = codes "TRUE"
type_name kw_false = codes "FALSE"
type_name kw_or = codes "OR"
type_name kw_if = codes "IF"
type_name kw_then = codes "THEN"
type_name kw_elsif = codes "ELSIF"
type_name kw_else = codes "ELSE"
type_name kw_for = codes "FOR"
type_name kw_to = codes "TO"
type_name kw_by = codes "BY"
type_name kw_do = codes "DO"
type_name kw_while = codes "WHILE"
type_name kw_repeat = codes "REPEAT"
type_name kw_until = codes "UNTIL"
type_name kw_loop = codes "LOOP"
type_name kw_exit = codes "EXIT"
type_name kw_array = codes "ARRAY"
type_name kw_of = codes "OF"
type_name kw_record = codes "RECORD"
type_name kw_definition = codes "DEFINITION"
type_name kw_import = codes "IMPORT"
type_name kw_case = codes "CASE"
type_name kw_pointer = codes "POINTER"
type_name kw_nil = codes "NIL"
type_name kw_in = codes "IN"

pub record Token : Type 0 where
  pub type : TokenType
  pub val : Text
  pub val_int : ℕ

-- The three constructors of `Token`.
abbrev pub bare : TokenType → Token
bare t = record { type = t; val = []; val_int = 0 }

abbrev pub spelled : TokenType → Text → Token
spelled t v = record { type = t; val = v; val_int = 0 }

abbrev pub numbered : TokenType → ℕ → Token
numbered t v = record { type = t; val = []; val_int = v }

-- `Token::operator std::string`
unfoldable pub token_text : Token → Text
token_text t = go t.type
  where
    go : TokenType → Text
    go integer = codes "integer(" ++ t.val ++ codes ")"
    go hexinteger = codes "hexinteger(" ++ t.val ++ codes ")"
    go chr = b'\'' ∷ decimal t.val_int ++ codes "'"
    go hexchr = codes "hexchar(" ++ t.val ++ codes ")"
    go ident = t.val
    go _ = type_name t.type
