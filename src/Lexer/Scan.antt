-- ===== src/Lexer/Scan.antt =====
-- Numbers, identifiers and strings: `scan_digit`, `scan_ident` and `scan_string` of
-- src/compiler/lexer.cc.
use axcomp.Prelude.{
  ℕ, zero, suc, ◌-◌, ◌%◌, Bool, false, not, ◌&&◌, ◌||◌, [], ◌∷◌, ◌++◌, map, Option, none, some,
  ◌==◌, ltb, if◌then◌else◌, length, Text, codes,
}
use axcomp.Error.{Result, ok, err, out_of_fuel, lexical, invalid_code_point, ◌>>=◌}
use axcomp.Token.{Token, spelled, numbered, ident, integer, hexinteger, real, chr, hexchr, string}
use axcomp.Lexer.Unicode.{Unicode, is_digit, is_xdigit, is_upper, is_lower, is_emoji}
use axcomp.Lexer.Tables.{keyword_map, find_keyword}
use axcomp.Lexer.State.{Lexer, get, peek, push_char, get_location}

-- `s += static_cast<char>(c)`
abbrev pub add_char : Text → ℕ → Result Text
add_char s c = ok (s ++ (c % 256) ∷ [])

abbrev pub appended : Text → Option Text → Result Text
appended s none = err invalid_code_point
appended s (some bytes) = ok (s ++ bytes)

-- `utf8::append(static_cast<char32_t>(c), s)`
abbrev pub append : Unicode → Text → ℕ → Result Text
append u s c = appended s (u.append c)

-- The loop `while (accepts(c)) { get(); <add c to s>; c = peek(); }`, with `c` what `peek` shows.
unfoldable pub scan_while :
    (ℕ → Bool) → (Text → ℕ → Result Text) → ℕ → Text → Lexer → Result (Text × Lexer)
scan_while accepts add zero s lx = out_of_fuel
scan_while accepts add (suc f) s lx =
    let more = add s (peek lx) >>= λ t. scan_while accepts add f t (get lx).1 in
    if accepts (peek lx) then more else ok (s, lx)

abbrev pub take_if : Bool → Text → Lexer → Text × Lexer
take_if b s lx = if b then (s ++ (peek lx % 256) ∷ [], (get lx).1) else (s, lx)

-- `scan_digit` behind the digits of the fraction: the exponent's letter, its sign and its digits.
unfoldable pub scan_exponent : ℕ → Text → Lexer → Result (Token × Lexer)
scan_exponent f s lx =
    let (s1, lx1) = take_if (peek lx == b'e' || peek lx == b'E' || peek lx == b'D') s lx in
    let (s2, lx2) = take_if (peek lx1 == b'+' || peek lx1 == b'-') s1 lx1 in
    scan_while is_digit add_char f s2 lx2 >>= λ r. ok (spelled real r.0, r.1)

-- `scan_digit` behind a point.
unfoldable pub scan_fraction : ℕ → Text → Lexer → Result (Token × Lexer)
scan_fraction f s lx =
    if not (is_digit (peek lx))
    then ok (spelled integer s, push_char b'.' lx)
    else scan_while is_digit add_char f (s ++ b'.' ∷ []) lx >>= λ r. scan_exponent f r.0 r.1

-- `scan_digit` behind the first run of digits, on the character that follows.
unfoldable pub scan_suffix : ℕ → Text → Lexer → Result (Token × Lexer)
scan_suffix f s lx =
    if peek lx == b'H'
    then ok (spelled hexinteger s, (get lx).1)
    else if peek lx == b'.'
    then scan_fraction f s (get lx).1
    else if peek lx == b'X'
    then ok (spelled hexchr s, (get lx).1)
    else ok (spelled integer s, lx)

unfoldable pub scan_digit : ℕ → ℕ → Lexer → Result (Token × Lexer)
scan_digit f c lx =
    scan_while is_xdigit add_char f ((c % 256) ∷ []) lx >>= λ r. scan_suffix f r.0 r.1

-- `has_upper` and `has_lower`: some ASCII byte of the identifier is in that case.
unfoldable pub has_upper : Text → Bool
has_upper [] = false
has_upper (c ∷ s) = is_upper c || has_upper s

unfoldable pub has_lower : Text → Bool
has_lower [] = false
has_lower (c ∷ s) = (not (is_upper c) && is_lower c) || has_lower s

unfoldable pub upper : ℕ → ℕ
upper c = if is_lower c then c - 32 else c

abbrev pub found_or : Option Token → Token → Token
found_or none t = t
found_or (some k) t = k

-- `scan_ident` behind its loop: the keyword of that spelling, if it is all in one case.
unfoldable pub classify : Text → Token
classify s =
    if not (has_upper s && has_lower s)
    then found_or (find_keyword s keyword_map) (
        if has_lower s
        then found_or (find_keyword (map upper s) keyword_map) (spelled ident s)
        else spelled ident s)
    else spelled ident s

abbrev pub is_ident_char : Unicode → ℕ → Bool
is_ident_char u c = u.is_alnum c || is_emoji c || c == b'_'

unfoldable pub scan_ident : Unicode → ℕ → ℕ → Lexer → Result (Token × Lexer)
scan_ident u f c lx = append u [] c >>= λ s.
    scan_while (is_ident_char u) (append u) f s lx >>= λ r. ok (classify r.0, r.1)

abbrev pub max_str_literal : ℕ
max_str_literal = 65536

-- The loop of `scan_string`, on the character that was read last.
unfoldable pub string_loop : Unicode → ℕ → ℕ → Text → ℕ → Lexer → Result (Token × Lexer)
string_loop u start zero s c lx = out_of_fuel
string_loop u start (suc f) s c lx =
    let more = append u s c >>= λ t.
    let rest = string_loop u start f t (get lx).0 (get lx).1 in
    if ltb max_str_literal (length t)
    then err (lexical (get_location lx) (codes "String literal greater than 65536"))
    else rest in
    if c == start
    then ok (spelled string s, lx)
    else if c == b'\n'
    then err (lexical (get_location lx) (codes "Unterminated string"))
    else more

unfoldable pub scan_string : Unicode → ℕ → ℕ → Lexer → Result (Token × Lexer)
scan_string u f start lx = append u [] start >>= λ s0.
    let (c, lx1) = get lx in
    if c == start
    then ok (spelled string s0, lx1)
    else append u s0 c >>= λ s1.
        let (final, lx2) = get lx1 in
        if final == b'\'' && start == b'\''
        then ok (numbered chr c, lx2)
        else if final == start
        then ok (spelled string s1, lx2)
        else append u s1 final >>= λ s2. string_loop u start f s2 (get lx2).0 (get lx2).1
