-- ===== src/Lexer/Skip.antt =====
-- White space and comments: `get_comment`, `get_line_comment` and `get_char` of
-- src/compiler/lexer.cc. Each loop takes a unit of fuel for each round.
use axcomp.Prelude.{ℕ, zero, suc, ◌&&◌, ◌==◌, if◌then◌else◌, codes}
use axcomp.Error.{Result, ok, err, out_of_fuel, lexical, ◌>>=◌}
use axcomp.Lexer.Unicode.{eof, is_space}
use axcomp.Lexer.State.{Lexer, get, peek, set_newline, get_location}

-- The loop of `get_comment`, behind the read of the initial `*`. A nested comment is the recursive
-- call, which reads that character itself.
unfoldable pub comment_loop : ℕ → Lexer → Result Lexer
comment_loop zero lx = out_of_fuel
comment_loop (suc f) lx =
    let (c, lx1) = get lx in
    let nested = comment_loop f (get lx1).1 in
    let inner = if c == b'(' && peek lx1 == b'*' then nested else ok lx1 in
    let more = inner >>= λ lx2. comment_loop f (if c == b'\n' then set_newline lx2 else lx2) in
    if c == eof
    then err (lexical (get_location lx1) (codes "Unterminated comment"))
    else if c == b'*' && peek lx1 == b')'
    then ok (get lx1).1
    else more

unfoldable pub get_comment : ℕ → Lexer → Result Lexer
get_comment f lx = comment_loop f (get lx).1

unfoldable pub line_comment_loop : ℕ → Lexer → Result Lexer
line_comment_loop zero lx = out_of_fuel
line_comment_loop (suc f) lx =
    let (c, lx1) = get lx in
    let more = line_comment_loop f lx1 in
    if c == eof then ok lx1 else if c == b'\n' then ok (set_newline lx1) else more

unfoldable pub get_line_comment : ℕ → Lexer → Result Lexer
get_line_comment f lx = line_comment_loop f (get lx).1

unfoldable pub get_char : ℕ → Lexer → Result (ℕ × Lexer)
get_char zero lx = out_of_fuel
get_char (suc f) lx =
    let (c, lx1) = get lx in
    let after_newline = get_char f (set_newline lx1) in
    let after_comment = get_comment f lx1 >>= get_char f in
    let after_line = get_line_comment f lx1 >>= get_char f in
    let after_space = get_char f lx1 in
    if c == eof
    then ok (eof, lx1)
    else if c == b'\n'
    then after_newline
    else if c == b'(' && peek lx1 == b'*'
    then after_comment
    else if c == b'/' && peek lx1 == b'/'
    then after_line
    else if is_space c
    then after_space
    else ok (c, lx1)
