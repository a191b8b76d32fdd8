-- ===== src/Tests/Lexing.antt =====
-- The lexer at concrete texts: src/compiler/lexer.cc.
use axcomp.Prelude.{
  ℕ, zero, suc, ◌≡◌, ◌≢◌, ◌≤◌, ◌⊎◌, refl, arith, Bool, false, ◌&&◌, if◌then◌else◌, List, [], ◌∷◌,
  Text, codes, some, none, map, ◌+◌,
}
use axcomp.Error.{Result, ok, out_of_fuel, Location, Ends, ◌>>=◌}
use axcomp.Token.{
  Token, TokenType, bare, spelled, ident, assign, integer, hexinteger, kw_begin, eof, type_name,
  plus,
}
use axcomp.Lexer.State.{Lexer, available}
use axcomp.Lexer.Skip.{get_comment}
use axcomp.Lexer.Scan.{classify, found_or, has_upper, has_lower, upper}
use axcomp.Lexer.Tables.{find_keyword, keyword_map}
use axcomp.Lexer.Tokenize.{initial, get_token, peek_token}
use axcomp.Lexer.Ends.Token.{tokens-end}
use axcomp.Lexer.Stack.{get_token-peek_token}
use axcomp.Lexer.Keywords.{classify_lem, classify_cases}
use axcomp.Lexer.Comments.Depth.{before, close, newlines}
use axcomp.Lexer.Comments.Nesting.{unterminated, get_comment_nesting}
use axcomp.Lexer.EndOfText.{get_token-low_byte}
use axcomp.Tests.Ascii.{ascii, ascii-IsUnicode}

abbrev tokens : ℕ → Lexer → Result (List Token)
tokens zero lx = ok []
tokens (suc n) lx = get_token ascii lx >>= λ (t, lx1). tokens n lx1 >>= λ ts. ok (t ∷ ts)

abbrev program : Lexer
program = initial (codes "x := 12+0AH (* a (* b *) c *) begin") none

-- Numbers, nested comments and a keyword in small letters.
program-tokens :
    tokens 7 program
    ≡ ok (
        spelled ident (codes "x")
        ∷ spelled assign (codes ":=")
        ∷ spelled integer (codes "12")
        ∷ spelled plus (codes "+")
        ∷ spelled hexinteger (codes "0A")
        ∷ spelled kw_begin (codes "BEGIN")
        ∷ bare eof
        ∷ [])
unfolding get_token initial axcomp.Lexer.Tokenize.scan_token axcomp.Lexer.Skip.get_char available
    axcomp.Lexer.State.get axcomp.Lexer.Tokenize.directives axcomp.Lexer.Tokenize.scan_char
    axcomp.Lexer.Tables.find_single axcomp.Lexer.Tokenize.scan_other axcomp.Lexer.Scan.scan_ident
    axcomp.Lexer.Scan.scan_while axcomp.Lexer.State.peek axcomp.Lexer.Unicode.is_emoji
    axcomp.Lexer.Tokenize.two_char axcomp.Lexer.Scan.scan_digit axcomp.Lexer.Scan.scan_suffix
    classify has_lower has_upper upper get_comment axcomp.Lexer.Skip.comment_loop find_keyword
    axcomp.Prelude.text_eq
program-tokens = refl

tokens-end_example :
    Ends (λ r. available r.1 ≤ available program) (get_token ascii program)
    × Ends (λ r. available r.1 ≤ available program) (peek_token ascii program)
    × (get_token ascii program ≢ out_of_fuel)
    × (peek_token ascii program ≢ out_of_fuel)
tokens-end_example = tokens-end ascii ascii-IsUnicode program

get_token-peek_token_example :
    ((peek_token ascii program >>= λ p. get_token ascii p.1) ≡ get_token ascii program)
    × ((peek_token ascii program >>= λ p. peek_token ascii p.1) ≡ peek_token ascii program)
get_token-peek_token_example = get_token-peek_token ascii program

abbrev comment : List ℕ
comment = codes "a(*b*)c*)d"

get_comment_nesting_example :
    ((left : List ℕ) × (line : ℕ) × (column : ℕ) × (close 1 comment ≡ some left)
      × (get_comment 20 (before [] none (b'*' ∷ comment) 1 0)
          ≡ ok (before [] none left line column))
      × (line + newlines left ≡ 1 + newlines comment))
    ⊎ ((place : Location) × (close 1 comment ≡ none)
        × (get_comment 20 (before [] none (b'*' ∷ comment) 1 0) ≡ unterminated place))
get_comment_nesting_example =
    get_comment_nesting [] none 20 comment 1 0 (omega arith)
      (refl, (refl, (refl, (refl, (refl, (refl, (refl, (refl, (refl, (refl, tt))))))))))

classify_lem_example : classify (codes "Begin") ≡ (
    if has_upper (codes "Begin") && has_lower (codes "Begin")
    then spelled ident (codes "Begin")
    else found_or
        (find_keyword (map upper (codes "Begin")) keyword_map)
        (spelled ident (codes "Begin")))
classify_lem_example = classify_lem (codes "Begin")

classify_cases_example :
    (classify (codes "while") ≡ spelled ident (codes "while"))
    ⊎ ((t : TokenType) × (t ≢ ident)
        × (classify (codes "while") ≡ spelled t (type_name t))
        × (map upper (codes "while") ≡ type_name t)
        × ((has_upper (codes "while") && has_lower (codes "while")) ≡ false))
classify_cases_example = classify_cases (codes "while")

-- U+00FF before an `x`.
get_token-low_byte_example :
    get_token ascii (before [] none (255 ∷ codes "x") 1 0)
    ≡ ok (bare eof, before [] none (codes "x") 1 1)
unfolding axcomp.Lexer.Tables.find_single
get_token-low_byte_example =
    get_token-low_byte ascii none 255 (codes "x") 1 0 (bare eof) (omega arith) refl refl
