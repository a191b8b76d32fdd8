-- ===== src/Token/Enumeration.antt =====
-- The enumeration of token types is faithful: the underlying number determines the type.
use axcomp.Prelude.{◌≡◌, refl, ap, true, List, [], ◌∷◌, some, get_elem?, ==_iff}
use axcomp.Token.{
  TokenType, ordinal, type_eq, null, eof, ident, semicolon, period, comma, plus, dash, asterix,
  l_paren, r_paren, equals, colon, assign, hash, less, leq, greater, gteq, tilde, ampersand,
  l_bracket, r_bracket, dotdot, bar, slash, caret, l_brace, r_brace, integer, hexinteger, real, chr,
  hexchr, string, kw_module, kw_begin, kw_end, kw_div, kw_mod, kw_const, kw_type, kw_var, kw_return,
  kw_procedure, kw_true, kw_false, kw_or, kw_if, kw_then, kw_elsif, kw_else, kw_for, kw_to, kw_by,
  kw_do, kw_while, kw_repeat, kw_until, kw_loop, kw_exit, kw_array, kw_of, kw_record, kw_definition,
  kw_import, kw_case, kw_pointer, kw_nil, kw_in,
}

abbrev all_types : List TokenType
all_types =
    null ∷ eof ∷ ident ∷ semicolon ∷ period ∷ comma ∷ plus ∷ dash ∷ asterix ∷ l_paren ∷ r_paren
    ∷ equals ∷ colon ∷ assign ∷ hash ∷ less ∷ leq ∷ greater ∷ gteq ∷ tilde ∷ ampersand ∷ l_bracket
    ∷ r_bracket ∷ dotdot ∷ bar ∷ slash ∷ caret ∷ l_brace ∷ r_brace ∷ integer ∷ hexinteger ∷ real
    ∷ chr ∷ hexchr ∷ string ∷ kw_module ∷ kw_begin ∷ kw_end ∷ kw_div ∷ kw_mod ∷ kw_const ∷ kw_type
    ∷ kw_var ∷ kw_return ∷ kw_procedure ∷ kw_true ∷ kw_false ∷ kw_or ∷ kw_if ∷ kw_then ∷ kw_elsif
    ∷ kw_else ∷ kw_for ∷ kw_to ∷ kw_by ∷ kw_do ∷ kw_while ∷ kw_repeat ∷ kw_until ∷ kw_loop ∷ kw_exit
    ∷ kw_array ∷ kw_of ∷ kw_record ∷ kw_definition ∷ kw_import ∷ kw_case ∷ kw_pointer ∷ kw_nil
    ∷ kw_in ∷ []

get_elem?-ordinal : (t : TokenType) → get_elem? all_types (ordinal t) ≡ some t
unfolding ordinal
get_elem?-ordinal null = refl
get_elem?-ordinal _ = refl

pub ordinal-injective : (a b : TokenType) → ordinal a ≡ ordinal b → a ≡ b
ordinal-injective a b e = cc (get_elem?-ordinal a, get_elem?-ordinal b, ap (get_elem? all_types) e)

pub type_eq→eq : (a b : TokenType) → type_eq a b ≡ true → a ≡ b
unfolding ordinal
type_eq→eq a b h = ordinal-injective a b ((==_iff (ordinal a) (ordinal b)).0 h)
