-- ===== src/Lexer/Tokenize.antt =====
-- The tokens of a text: the constructor, `get_token`, `peek_token` and `push_token` of
-- src/compiler/lexer.cc.
use axcomp.Prelude.{
  ℕ, zero, suc, ◌+◌, ◌%◌, ◌&&◌, ◌||◌, List, [], ◌∷◌, ◌++◌, Option, none, some, Bool, ◌==◌,
  if◌then◌else◌, Text, codes,
}
use axcomp.Error.{Result, ok, err, out_of_fuel, lexical, runtime_error, ◌>>=◌}
use axcomp.Token.{
  Token, TokenType, spelled, assign, colon, leq, less, gteq, greater, dotdot, period,
}
use axcomp.Lexer.Unicode.{Unicode, is_digit, is_emoji}
use axcomp.Lexer.Tables.{single_tokens, find_single}
use axcomp.Lexer.State.{Lexer, peek, get_location, available}
use axcomp.Lexer.Skip.{get_char}
use axcomp.Lexer.Scan.{scan_digit, scan_ident, scan_string}
use axcomp.Lexer.Directive.{scan_directive}

-- The state that the constructor leaves.
unfoldable pub initial : List ℕ → Option Bool → Lexer
initial cs opts = record {
  rest = cs;
  next_token = [];
  line_no = 1;
  char_pos = 0;
  last_char = 0;
  output_main = opts;
}

abbrev pub started : Option (List ℕ) → Option Bool → Result Lexer
started none opts =
    err (lexical (record { line_no = 1; char_pos = 0 }) (codes "Not valid UTF-8 text"))
started (some cs) opts = ok (initial cs opts)

-- `LexerUTF8::LexerUTF8`
unfoldable pub open_text : Unicode → Text → Option Bool → Result Lexer
open_text u text opts = started (u.decode text) opts

-- A token of one character, or of two where `=` or a second point follows. The second character
-- is read by `get_char`, as in the source.
unfoldable pub two_char :
    ℕ → ℕ → TokenType → Text → TokenType → Text → Lexer → Result (Token × Lexer)
two_char f next long long_text short short_text lx =
    if peek lx == next
    then (get_char f lx >>= λ (_, lx1). ok (spelled long long_text, lx1))
    else ok (spelled short short_text, lx)

abbrev pub unknown : Lexer → Option Text → Result (Token × Lexer)
unknown lx none = err runtime_error
unknown lx (some s) = err (lexical (get_location lx) (codes "Unknown character " ++ s))

-- `get_token` behind the table of single characters.
unfoldable pub scan_other : Unicode → ℕ → ℕ → Lexer → Result (Token × Lexer)
scan_other u f c lx =
    if c == b':'
    then two_char f b'=' assign (codes ":=") colon (codes ":") lx
    else if c == b'<'
    then two_char f b'=' leq (codes "<=") less (codes "<") lx
    else if c == b'>'
    then two_char f b'=' gteq (codes ">=") greater (codes ">") lx
    else if c == b'.'
    then two_char f b'.' dotdot (codes "..") period (codes ".") lx
    else if c == b'\'' || c == b'"'
    then scan_string u f c lx
    else if is_digit c
    then scan_digit f c lx
    else if u.is_alnum c || is_emoji c
    then scan_ident u f c lx
    else unknown lx (u.to_multibyte c)

abbrev pub single_or : Option Token → Result (Token × Lexer) → Lexer → Result (Token × Lexer)
single_or none other lx = other
single_or (some t) other lx = ok (t, lx)

-- `get_token` behind the loop on directives: the table is searched for the character as a `char`.
unfoldable pub scan_char : Unicode → ℕ → ℕ → Lexer → Result (Token × Lexer)
scan_char u f c lx = single_or (find_single (c % 256) single_tokens) (scan_other u f c lx) lx

-- The loop on directives, on the character that was read last.
unfoldable pub directives : Unicode → ℕ → ℕ → Lexer → Result (ℕ × Lexer)
directives u zero c lx = out_of_fuel
directives u (suc f) c lx =
    let more = scan_directive u f lx >>= get_char f >>= λ r. directives u f r.0 r.1 in
    if c == b'<' && peek lx == b'*' then more else ok (c, lx)

-- `get_token` on an empty stack.
unfoldable pub scan_token : Unicode → ℕ → Lexer → Result (Token × Lexer)
scan_token u f lx =
    get_char f lx >>= λ (c, lx1). directives u f c lx1 >>= λ (d, lx2). scan_char u f d lx2

-- Fuel for each loop: one round more than there are characters, and one for the end.
abbrev pub fuel : Lexer → ℕ
fuel lx = available lx + 2

abbrev pub pop_or : List Token → Result (Token × Lexer) → Lexer → Result (Token × Lexer)
pop_or [] scanned lx = scanned
pop_or (t ∷ ts) scanned lx = ok (t, record lx { next_token = ts })

unfoldable pub get_token : Unicode → Lexer → Result (Token × Lexer)
get_token u lx = pop_or lx.next_token (scan_token u (fuel lx) lx) lx

unfoldable pub push_token : Token → Lexer → Lexer
push_token t lx = record lx { next_token = t ∷ lx.next_token }

abbrev pub show_or : List Token → Result (Token × Lexer) → Lexer → Result (Token × Lexer)
show_or [] scanned lx = scanned >>= λ (t, lx1). ok (t, push_token t lx1)
show_or (t ∷ ts) scanned lx = ok (t, lx)

unfoldable pub peek_token : Unicode → Lexer → Result (Token × Lexer)
peek_token u lx = show_or lx.next_token (get_token u lx) lx
