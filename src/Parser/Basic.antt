-- ===== src/Parser/Basic.antt =====
-- Identifiers and literals: src/compiler/parser.cc.
use axcomp.Prelude.{
  ℕ, ◌+◌, ◌*◌, ◌-◌, ◌%◌, ◌^◌, Bool, true, false, ◌&&◌, [], ◌∷◌, ◌++◌, Option, none, some,
  if◌then◌else◌, ◌==◌, ltb, leb, Text, codes,
}
use axcomp.Error.{Result, ok, err, runtime_error}
use axcomp.Token.{
  TokenType, Token, type_eq, token_text, ident, period, asterix, dash, hexinteger, hexchr, kw_true,
  kw_nil,
}
use axcomp.Token
use axcomp.Attr.{Attr, global, read_only, insert_attr}
use axcomp.Types.{TypeNode, module_of}
use axcomp.Ast.Expr.{
  AstIdentifier, AstQualident, AstFactor, integer, real, boolean, character, string, nil,
}
use axcomp.Parser.State.{
  Library, Stod, value, invalid_argument, out_of_range, Symbol, Parse, ◌>>=◌, ◌>>◌, pure, throw,
  lift_result, next, peek, push, find, get_token, is_type,
}

-- `strtol` of the C library, on a text that begins with a digit, as those of the tokens do: the
-- longest prefix of digits below the radix, and `LONG_MAX` for a number that is too large.
abbrev pub digit_value : ℕ → ℕ
digit_value c =
    if leb b'0' c && leb c b'9'
    then c - 48
    else if leb b'A' c && leb c b'F'
    then c - 55
    else if leb b'a' c && leb c b'f'
    then c - 87
    else 99

unfoldable pub digits_value : ℕ → ℕ → Text → ℕ
digits_value radix n [] = n
digits_value radix n (c ∷ s) =
    let rest = digits_value radix (n * radix + digit_value c) s in
    if ltb (digit_value c) radix then rest else n

abbrev pub long_max : ℕ
long_max = 0x7fffffffffffffff

unfoldable pub strtol : ℕ → Text → ℕ
strtol radix s = let n = digits_value radix 0 s in if leb n long_max then n else long_max

-- `str.replace(str.find('D'), 1, "E")`, if there is one.
unfoldable pub replace_d : Text → Text
replace_d [] = []
replace_d (c ∷ s) = let rest = replace_d s in if c == b'D' then b'E' ∷ s else c ∷ rest

abbrev pub identifier : Text → AstIdentifier
identifier s = record { value = s; attrs = [] }

abbrev pub is_module : Option Symbol → Bool
is_module none = false
is_module (some v) = module_node v.type
  where
    module_node : TypeNode → Bool
    module_node (module_of _) = true
    module_node _ = false

abbrev pub module_markers : TokenType → Option Attr
module_markers t =
    if type_eq t asterix then some global else if type_eq t dash then some read_only else none

abbrev pub stod_result : Text → Stod → Parse AstFactor
stod_result s (value v) = pure (real v s)
stod_result s invalid_argument = throw (codes "REAL number invalid argument: " ++ s ++ codes " ")
stod_result s out_of_range = throw (codes "REAL number out of range: " ++ s ++ codes " ")

abbrev pub string_of : Text → Result AstFactor
string_of [] = err runtime_error
string_of (delim ∷ s) = ok (string s delim)

module _ (lib : Library) where
  -- `set_attrs`
  abbrev pub set_marker : AstIdentifier → Option Attr → Parse AstIdentifier
  set_marker id none = pure id
  set_marker id (some a) = do next lib; pure (record id { attrs = insert_attr a id.attrs })

  unfoldable pub set_attrs : AstIdentifier → Parse AstIdentifier
  set_attrs id = do tok ← peek lib; set_marker id (module_markers tok.type)

  unfoldable pub parse_identifier : Parse AstIdentifier
  parse_identifier = do tok ← get_token lib ident; pure (identifier tok.val)

  -- `parse_qualident`, behind the `.`: the name of a module, or two tokens that are pushed back.
  unfoldable pub qualified : Token → Token → Parse AstQualident
  qualified first dot = do
    id ← get_token lib ident
    res ← find first.val
    if is_module res
        then pure (record { qual = first.val; id = identifier id.val })
        else do push id; push dot; pure (record { qual = []; id = identifier first.val })

  unfoldable pub parse_qualident : Parse AstQualident
  parse_qualident = do
    first ← get_token lib ident
    tok ← peek lib
    if is_type tok period
        then (do dot ← next lib; qualified first tok)
        else pure (record { qual = []; id = identifier first.val })

  unfoldable pub parse_integer : Parse AstFactor
  parse_integer = do
    tok ← peek lib
    if is_type tok hexinteger
        then (do next lib; pure (integer (strtol 16 tok.val) true))
        else if is_type tok Token.integer
        then (do next lib; pure (integer (strtol 10 tok.val) false))
        else throw (codes "Unexpected token: " ++ token_text tok ++ codes " - expecting integer")

  unfoldable pub parse_real : Parse AstFactor
  parse_real = do tok ← next lib; stod_result tok.val (lib.stod (replace_d tok.val))

  unfoldable pub parse_char : Parse AstFactor
  parse_char = do
    tok ← next lib
    if is_type tok hexchr
        then pure (character (strtol 16 tok.val % 2 ^ 32) true)
        else pure (character (tok.val_int % 2 ^ 32) false)

  unfoldable pub parse_string : Parse AstFactor
  parse_string = do tok ← next lib; lift_result (string_of tok.val)

  unfoldable pub parse_boolean : Parse AstFactor
  parse_boolean = do tok ← next lib; pure (boolean (is_type tok kw_true))

  unfoldable pub parse_nil : Parse AstFactor
  parse_nil = do get_token lib kw_nil; pure nil
