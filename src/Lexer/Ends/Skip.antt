-- ===== src/Lexer/Ends/Skip.antt =====
-- Comments and white space: src/compiler/lexer.cc, `get_comment`, `get_line_comment`, `get_char`.
use axcomp.Prelude.{
  ℕ, zero, suc, ◌+◌, ◌≤◌, ◌<◌, ◌≡◌, refl, arith, Bool, true, false, ◌&&◌, ◌==◌, if◌then◌else◌,
}
use axcomp.Error.{Result, Ends, returns, throws, Ends-if, Ends-bind, Ends-mono}
use axcomp.Lexer.Unicode.{eof, is_space}
use axcomp.Lexer.State.{
  Lexer, get, peek, set_newline, available, available-get-le, available-get-lt,
}
use axcomp.Lexer.Skip.{comment_loop, get_comment, line_comment_loop, get_line_comment, get_char}

-- The call ends, and leaves at most `n` characters.
abbrev pub Leaves : ℕ → Result Lexer → Type 0
Leaves n r = Ends (λ lx. available lx ≤ n) r

abbrev pub Reads {ℓ} : {A : Type ℓ} → ℕ → Result (A × Lexer) → Type ℓ
Reads n r = Ends (λ p. available p.1 ≤ n) r

pub Leaves-le : {r : Result Lexer} (m n : ℕ) → m ≤ n → Leaves m r → Leaves n r
Leaves-le m n h e = Ends-mono e (λ lx k. omega arith)

pub Reads-le {ℓ} : {A : Type ℓ} {r : Result (A × Lexer)} (m n : ℕ) → m ≤ n → Reads m r → Reads n r
Reads-le m n h e = Ends-mono e (λ p k. omega arith)

pub available-newline : (lx : Lexer) → available (set_newline lx) ≡ available lx
unfolding available
available-newline lx = refl

pub available-if_newline :
    (b : Bool) (lx : Lexer) → available (if b then set_newline lx else lx) ≡ available lx
available-if_newline true lx = available-newline lx
available-if_newline false lx = refl

-- A character that is not the end was taken away.
pub get-lt : (lx : Lexer) → ((get lx).0 == eof) ≡ false → available (get lx).1 < available lx
get-lt lx h = available-get-lt lx (ground arith)

pub comment_loop-Leaves :
    (f : ℕ) (lx : Lexer) → available lx < f → Leaves (available lx) (comment_loop f lx)
unfolding comment_loop
comment_loop-Leaves zero lx h = elim h [ ]
comment_loop-Leaves (suc f) lx h =
    let c : ℕ = (get lx).0 in
    let lx1 : Lexer = (get lx).1 in
    Ends-if (c == eof) (λ _. throws)
      λ more.
        let less : available lx1 < available lx = get-lt lx more in
        let le1 : available (get lx1).1 ≤ available lx1 = available-get-le lx1 in
        Ends-if (c == b'*' && peek lx1 == b')') (λ _. returns (omega arith))
          λ _.
            Ends-bind {P = λ l. available l ≤ available lx1}
              (Ends-if (c == b'(' && peek lx1 == b'*')
                (λ _. Leaves-le _ _ le1 (comment_loop-Leaves f (get lx1).1 (omega arith)))
                (λ _. returns (omega arith)))
              λ lx2 le2.
                let same = available-if_newline (c == b'\n') lx2 in
                Leaves-le _ _ (omega arith) (
                  comment_loop-Leaves f (if c == b'\n' then set_newline lx2 else lx2) (omega arith))

pub get_comment-Leaves :
    (f : ℕ) (lx : Lexer) → available lx < f → Leaves (available lx) (get_comment f lx)
unfolding get_comment
get_comment-Leaves f lx h =
    let le : available (get lx).1 ≤ available lx = available-get-le lx in
    Leaves-le _ _ le (comment_loop-Leaves f (get lx).1 (omega arith))

pub line_comment_loop-Leaves :
    (f : ℕ) (lx : Lexer) → available lx < f → Leaves (available lx) (line_comment_loop f lx)
unfolding line_comment_loop
line_comment_loop-Leaves zero lx h = elim h [ ]
line_comment_loop-Leaves (suc f) lx h =
    let c : ℕ = (get lx).0 in
    let le : available (get lx).1 ≤ available lx = available-get-le lx in
    let same = available-newline (get lx).1 in
    Ends-if (c == eof) (λ _. returns le)
      λ more.
        let less : available (get lx).1 < available lx = get-lt lx more in
        Ends-if (c == b'\n') (λ _. returns (omega arith))
          λ _. Leaves-le _ _ le (line_comment_loop-Leaves f (get lx).1 (omega arith))

pub get_line_comment-Leaves :
    (f : ℕ) (lx : Lexer) → available lx < f → Leaves (available lx) (get_line_comment f lx)
unfolding get_line_comment
get_line_comment-Leaves f lx h =
    let le : available (get lx).1 ≤ available lx = available-get-le lx in
    Leaves-le _ _ le (line_comment_loop-Leaves f (get lx).1 (omega arith))

-- What a character counts: the end can be read again and again.
abbrev pub cost : ℕ → ℕ
cost c = if c == eof then 0 else 1

pub cost-le : (c : ℕ) → cost c ≤ 1
cost-le c = ground arith

abbrev pub Costs : ℕ → Result (ℕ × Lexer) → Type 0
Costs n r = Ends (λ p. available p.1 + cost p.0 ≤ n) r

Costs-le : {r : Result (ℕ × Lexer)} (m n : ℕ) → m ≤ n → Costs m r → Costs n r
Costs-le m n h e = Ends-mono e (λ p k. omega arith)

pub Costs-Reads : {r : Result (ℕ × Lexer)} (n : ℕ) → Costs n r → Reads n r
Costs-Reads n e = Ends-mono e (λ p k. omega arith)

pub get_char-Costs : (f : ℕ) (lx : Lexer) → available lx < f → Costs (available lx) (get_char f lx)
unfolding get_char
get_char-Costs zero lx h = elim h [ ]
get_char-Costs (suc f) lx h =
    let c : ℕ = (get lx).0 in
    let lx1 : Lexer = (get lx).1 in
    let le : available lx1 ≤ available lx = available-get-le lx in
    let same : available (set_newline lx1) ≡ available lx1 = available-newline lx1 in
    Ends-if (c == eof) (λ _. returns {a = (eof, lx1)} (omega arith))
      λ more.
        let less : available lx1 < available lx = get-lt lx more in
        let one : cost c ≤ 1 = cost-le c in
        let again : (l : Lexer)
            → available l ≤ available lx1
            → Costs (available lx) (get_char f l) =
          λ l k. Costs-le _ _ (omega arith) (get_char-Costs f l (omega arith)) in
        Ends-if (c == b'\n') (λ _. again (set_newline lx1) (omega arith))
          λ _.
            Ends-if (c == b'(' && peek lx1 == b'*')
              (λ _. Ends-bind (get_comment-Leaves f lx1 (omega arith)) again)
              λ _.
                Ends-if (c == b'/' && peek lx1 == b'/')
                  (λ _. Ends-bind (get_line_comment-Leaves f lx1 (omega arith)) again)
                  λ _.
                    Ends-if (is_space c) (λ _. again lx1 (omega arith))
                      (λ _. returns {a = (c, lx1)} (omega arith))

pub get_char-Reads : (f : ℕ) (lx : Lexer) → available lx < f → Reads (available lx) (get_char f lx)
get_char-Reads f lx h = Costs-Reads _ (get_char-Costs f lx h)
