-- ===== src/Printer/Expr.antt =====
-- Expressions as `ASTPrinter` prints them: src/compiler/printer.cc.
use axcomp.Prelude.{
  ℕ, zero, suc, ◌+◌, ◌/◌, ◌%◌, Bool, true, false, [], ◌∷◌, ◌++◌, Option, none, some, if◌then◌else◌,
  ltb, decimal, Text, codes,
}
use axcomp.Token.{TokenType, type_eq, type_name, kw_or, asterix, kw_true, kw_false}
use axcomp.Lexer.Unicode.{Unicode}
use axcomp.Ast.Expr.{
  AstQualident, AstExpr, plain, relation, AstSimpleExpr, simple_expr, Adds, no_adds, add, AstTerm,
  term, Mults, no_mults, mult, AstFactor, designated, integer, real, parenthesised, called, boolean,
  character, string, set, nil, negation, AstDesignator, designator, Selectors, no_selectors,
  array_ref, field_ref, pointer_ref, ArrayRef, no_indices, index, AstCall, call, Exprs, no_exprs,
  argument, Labels, no_labels, labelled, AstLabel, single, range,
}

-- Prints one after the other; none is the exception `invalid_code_point` of a character.
infixr 30 ◌<>◌
abbrev pub ◌<>◌ : Option Text → Option Text → Option Text
none <> q = none
some s <> none = none
some s <> some t = some (s ++ t)

abbrev pub text : Text → Option Text
text s = some s

-- `std::hex`, for `f` above the number of digits.
abbrev pub hex_digit : ℕ → ℕ
hex_digit d = if ltb d 10 then 48 + d else 87 + d

unfoldable pub hexadecimal_on : ℕ → ℕ → Text → Text
hexadecimal_on zero n s = s
hexadecimal_on (suc f) n s =
    let more = hexadecimal_on f (n / 16) (hex_digit (n % 16) ∷ s) in
    if ltb n 16 then hex_digit n ∷ s else more

abbrev pub hexadecimal : ℕ → Text
hexadecimal n = hexadecimal_on (suc n) n []

-- `visit(ASTInteger)`
abbrev pub integer_text : ℕ → Bool → Text
integer_text n hex = if hex then b'0' ∷ hexadecimal n ++ codes "H" else decimal n

-- `visit(ASTCharPtr)`
abbrev pub appended : Option Text → Option Text
appended none = none
appended (some s) = some (b'\'' ∷ s ++ codes "'")

abbrev pub character_text : Unicode → ℕ → Bool → Option Text
character_text u n true = some (b'0' ∷ hexadecimal n ++ codes "X")
character_text u n false = appended (u.append n)

-- `visit(ASTQualident)`
unfoldable pub qualident_text : AstQualident → Text
qualident_text q = (if is_empty q.qual then [] else q.qual ++ codes ".") ++ q.id.value
  where
    is_empty : Text → Bool
    is_empty [] = true
    is_empty (_ ∷ _) = false

abbrev pub spaced : TokenType → Text
spaced op = b' ' ∷ type_name op ++ codes " "

abbrev pub sign_text : Option TokenType → Text
sign_text none = []
sign_text (some t) = type_name t

-- The separator in front of what follows in a list, if something does.
abbrev pub before_index : Text → ArrayRef → Text
before_index sep no_indices = []
before_index sep (index _ _) = sep

abbrev pub before_argument : Exprs → Text
before_argument no_exprs = []
before_argument (argument _ _) = codes ", "

abbrev pub before_label : Text → Labels → Text
before_label sep no_labels = []
before_label sep (labelled _ _) = sep

unfoldable mutual
  pub print_expr : Unicode → AstExpr → Option Text
  print_expr u (plain e) = print_simple u e
  print_expr u (relation e op d) = print_simple u e <> text (spaced op) <> print_simple u d

  pub print_simple : Unicode → AstSimpleExpr → Option Text
  print_simple u (simple_expr sign t rest) =
      text (sign_text sign) <> print_term u t <> print_adds u rest

  pub print_adds : Unicode → Adds → Option Text
  print_adds u no_adds = text []
  print_adds u (add op t rest) =
      text (if type_eq op kw_or then spaced op else type_name op)
      <> print_term u t
      <> print_adds u rest

  pub print_term : Unicode → AstTerm → Option Text
  print_term u (term e rest) = print_factor u e <> print_mults u rest

  pub print_mults : Unicode → Mults → Option Text
  print_mults u no_mults = text []
  print_mults u (mult op e rest) =
      text (if type_eq op asterix then type_name op else spaced op)
      <> print_factor u e
      <> print_mults u rest

  pub print_factor : Unicode → AstFactor → Option Text
  print_factor u (designated d) = print_designator u d
  print_factor u (integer n hex) = text (integer_text n hex)
  print_factor u (real v style) = text style
  print_factor u (parenthesised e) = text (codes " (") <> print_expr u e <> text (codes ") ")
  print_factor u (called c) = print_call u c
  print_factor u (boolean b) = text (type_name (if b then kw_true else kw_false))
  print_factor u (character n hex) = character_text u n hex
  print_factor u (string s delim) = text (delim ∷ s ++ delim ∷ [])
  print_factor u (set ls) = text (codes "{") <> print_labels u (codes ",") ls <> text (codes "}")
  print_factor u nil = text (codes "NIL")
  print_factor u (negation e) = text (codes "~ ") <> print_factor u e

  pub print_designator : Unicode → AstDesignator → Option Text
  print_designator u (designator q sels) = text (qualident_text q) <> print_selectors u sels

  pub print_selectors : Unicode → Selectors → Option Text
  print_selectors u no_selectors = text []
  print_selectors u (array_ref is sels) =
      text (codes "[")
      <> print_indices u (codes ",") is
      <> text (codes "]")
      <> print_selectors u sels
  print_selectors u (field_ref f sels) = text (b'.' ∷ f.value) <> print_selectors u sels
  print_selectors u (pointer_ref sels) = text (codes "^") <> print_selectors u sels

  pub print_indices : Unicode → Text → ArrayRef → Option Text
  print_indices u sep no_indices = text []
  print_indices u sep (index e is) =
      print_simple u e <> text (before_index sep is) <> print_indices u sep is

  pub print_call : Unicode → AstCall → Option Text
  print_call u (call d es) =
      print_designator u d <> text (codes "(") <> print_args u es <> text (codes ")")

  pub print_args : Unicode → Exprs → Option Text
  print_args u no_exprs = text []
  print_args u (argument e es) = print_expr u e <> text (before_argument es) <> print_args u es

  pub print_labels : Unicode → Text → Labels → Option Text
  print_labels u sep no_labels = text []
  print_labels u sep (labelled l ls) =
      print_label u l <> text (before_label sep ls) <> print_labels u sep ls

  pub print_label : Unicode → AstLabel → Option Text
  print_label u (single e) = print_simple u e
  print_label u (range e d) = print_simple u e <> text (codes "..") <> print_simple u d
