-- ===== src/TypeTable/Rules.antt =====
-- The rules of the operators: `TypeTable::initialise` of src/compiler/typetable.cc. A type stands
-- for its object: the index into the heap that `initialise` leaves.
use axcomp.Prelude.{ℕ, List, [], ◌∷◌}
use axcomp.Token.{
  TokenType, tilde, plus, dash, asterix, slash, kw_div, kw_mod, equals, hash, less, leq, greater,
  gteq, ampersand, kw_or, kw_in, assign,
}

-- `TypeRule1` and `TypeRule2`, with the operator that is their key.
pub record TypeRule1 : Type 0 where
  pub op : TokenType
  pub value : ℕ
  pub result : ℕ

pub record TypeRule2 : Type 0 where
  pub op : TokenType
  pub left : ℕ
  pub right : ℕ
  pub result : ℕ

abbrev pub int_type : ℕ
int_type = 0

abbrev pub bool_type : ℕ
bool_type = 1

abbrev pub real_type : ℕ
real_type = 2

abbrev pub char_type : ℕ
char_type = 3

abbrev pub str_type : ℕ
str_type = 4

abbrev pub str1_type : ℕ
str1_type = 5

abbrev pub set_type : ℕ
set_type = 6

abbrev pub void_type : ℕ
void_type = 7

abbrev pub any_type : ℕ
any_type = 8

-- `reg`: a multimap keeps the rules of one operator in the order of their insertion.
abbrev pub reg1 : TokenType → ℕ → ℕ → TypeRule1
reg1 op value result = record { op = op; value = value; result = result }

abbrev pub reg : TokenType → ℕ → ℕ → ℕ → TypeRule2
reg op left right result = record { op = op; left = left; right = right; result = result }

abbrev pub rules1 : List TypeRule1
rules1 = reg1 tilde bool_type bool_type ∷ []

abbrev pub rules2 : List TypeRule2
rules2 =
    reg plus int_type int_type int_type
    ∷ reg plus int_type real_type real_type
    ∷ reg plus real_type int_type real_type
    ∷ reg plus real_type real_type real_type
    ∷ reg plus str_type str_type str_type
    ∷ reg plus str_type char_type str_type
    ∷ reg plus char_type str_type str_type
    ∷ reg dash int_type int_type int_type
    ∷ reg dash int_type real_type real_type
    ∷ reg dash real_type int_type real_type
    ∷ reg dash real_type real_type real_type
    ∷ reg asterix int_type int_type int_type
    ∷ reg asterix int_type real_type real_type
    ∷ reg asterix real_type int_type real_type
    ∷ reg asterix real_type real_type real_type
    ∷ reg slash int_type int_type real_type
    ∷ reg slash int_type real_type real_type
    ∷ reg slash real_type int_type real_type
    ∷ reg slash real_type real_type real_type
    ∷ reg kw_div int_type int_type int_type
    ∷ reg kw_mod int_type int_type int_type
    ∷ reg equals int_type int_type bool_type
    ∷ reg equals real_type int_type bool_type
    ∷ reg equals int_type real_type bool_type
    ∷ reg equals real_type real_type bool_type
    ∷ reg hash int_type int_type bool_type
    ∷ reg hash real_type int_type bool_type
    ∷ reg hash int_type real_type bool_type
    ∷ reg hash real_type real_type bool_type
    ∷ reg less int_type int_type bool_type
    ∷ reg less real_type int_type bool_type
    ∷ reg less int_type real_type bool_type
    ∷ reg less real_type real_type bool_type
    ∷ reg leq int_type int_type bool_type
    ∷ reg leq real_type int_type bool_type
    ∷ reg leq int_type real_type bool_type
    ∷ reg leq real_type real_type bool_type
    ∷ reg greater int_type int_type bool_type
    ∷ reg greater real_type int_type bool_type
    ∷ reg greater int_type real_type bool_type
    ∷ reg greater real_type real_type bool_type
    ∷ reg gteq int_type int_type bool_type
    ∷ reg gteq real_type int_type bool_type
    ∷ reg gteq int_type real_type bool_type
    ∷ reg gteq real_type real_type bool_type
    ∷ reg equals str_type str_type bool_type
    ∷ reg hash str_type str_type bool_type
    ∷ reg less str_type str_type bool_type
    ∷ reg leq str_type str_type bool_type
    ∷ reg greater str_type str_type bool_type
    ∷ reg gteq str_type str_type bool_type
    ∷ reg ampersand bool_type bool_type bool_type
    ∷ reg kw_or bool_type bool_type bool_type
    ∷ reg equals bool_type bool_type bool_type
    ∷ reg hash bool_type bool_type bool_type
    ∷ reg equals char_type char_type bool_type
    ∷ reg hash char_type char_type bool_type
    ∷ reg less char_type char_type bool_type
    ∷ reg leq char_type char_type bool_type
    ∷ reg greater char_type char_type bool_type
    ∷ reg gteq char_type char_type bool_type
    ∷ reg equals set_type set_type bool_type
    ∷ reg hash set_type set_type bool_type
    ∷ reg kw_in int_type set_type bool_type
    ∷ reg plus set_type set_type set_type
    ∷ reg dash set_type set_type set_type
    ∷ reg asterix set_type set_type set_type
    ∷ reg slash set_type set_type set_type
    ∷ reg assign int_type int_type void_type
    ∷ reg assign bool_type bool_type void_type
    ∷ reg assign real_type real_type void_type
    ∷ reg assign char_type char_type void_type
    ∷ reg assign str_type str_type void_type
    ∷ reg assign set_type set_type void_type
    ∷ reg assign int_type any_type void_type
    ∷ reg assign bool_type any_type void_type
    ∷ reg assign real_type any_type void_type
    ∷ reg assign char_type any_type void_type
    ∷ reg assign str_type any_type void_type
    ∷ []
