-- ===== src/Lexer/Directive.antt =====
-- Directives `<* NAME + *>`: `scan_directive` of src/compiler/lexer.cc.
use axcomp.Prelude.{
  ℕ, zero, suc, Bool, not, ◌&&◌, ◌||◌, [], ◌++◌, Option, none, some, ◌==◌, if◌then◌else◌, Text,
  text_eq, codes,
}
use axcomp.Error.{Result, ok, err, out_of_fuel, lexical, ◌>>=◌}
use axcomp.Lexer.Unicode.{Unicode, eof, is_space}
use axcomp.Lexer.State.{Lexer, get, set_newline, get_location}
use axcomp.Lexer.Scan.{append, scan_while}

-- `skip_ws`, which goes on from the character that was read last.
unfoldable pub skip_ws : ℕ → ℕ → Lexer → Result (ℕ × Lexer)
skip_ws zero c lx = out_of_fuel
skip_ws (suc f) c lx =
    let lx1 = if c == b'\n' then set_newline lx else lx in
    let more = skip_ws f (get lx1).0 (get lx1).1 in
    if not (c == eof) && is_space c then more else ok (c, lx)

abbrev fail {ℓ} : {A : Type ℓ} → Lexer → Text → Result A
fail lx msg = err (lexical (get_location lx) msg)

abbrev pub is_name_char : Unicode → ℕ → Bool
is_name_char u c = u.is_alnum c || c == b'_'

abbrev pub is_main : Text → Bool
is_main s = text_eq s (codes "MAIN") || text_eq s (codes "main")

-- What a directive does: it sets the flag, if there are options, or is refused.
unfoldable pub apply_directive : Text → Bool → Option Bool → Lexer → Result Lexer
apply_directive name enable none lx =
    if not (is_main name) then fail lx (codes "Unknown directive: " ++ name) else ok lx
apply_directive name enable (some _) lx =
    if is_main name
    then ok (record lx { output_main = some enable })
    else fail lx (codes "Unknown directive: " ++ name)

-- `scan_directive` behind the name: the sign, `*` and `>`.
unfoldable pub scan_switch : ℕ → Text → Lexer → Result Lexer
scan_switch f name lx = skip_ws f (get lx).0 (get lx).1 >>= λ (c, lx1).
    if not (c == b'+') && not (c == b'-')
    then fail lx1 (codes "Invalid directive")
    else skip_ws f (get lx1).0 (get lx1).1 >>= λ (d, lx2).
        if not (d == b'*')
        then fail lx2 (codes "Invalid directive")
        else if not ((get lx2).0 == b'>')
        then fail (get lx2).1 (codes "Invalid directive")
        else apply_directive name (c == b'+') lx2.output_main (get lx2).1

unfoldable pub scan_directive : Unicode → ℕ → Lexer → Result Lexer
scan_directive u f lx =
    let lx0 = (get lx).1 in
    skip_ws f (get lx0).0 (get lx0).1 >>= λ (c, lx1).
    if c == eof
    then fail lx1 (codes "Unterminated directive")
    else if not (is_name_char u c)
    then fail lx1 (codes "Invalid directive")
    else append u [] c >>= λ s.
        scan_while (is_name_char u) (append u) f s lx1 >>= λ r. scan_switch f r.0 r.1
