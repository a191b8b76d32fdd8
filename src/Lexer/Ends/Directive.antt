-- ===== src/Lexer/Ends/Directive.antt =====
-- Directives: src/compiler/lexer.cc, `scan_directive`.
use axcomp.Prelude.{
  ℕ, zero, suc, ◌+◌, ◌≤◌, ◌<◌, ◌≡◌, refl, arith, Bool, not, ◌&&◌, [], ◌==◌, Option, some, none,
  Text, if◌then◌else◌, Bool-cases, inl, inr, ==_iff,
}
use axcomp.Error.{returns, throws, Ends-if, Ends-bind}
use axcomp.Lexer.Unicode.{Unicode, IsUnicode, eof, is_space}
use axcomp.Lexer.State.{Lexer, get, set_newline, available, available-get-le}
use axcomp.Lexer.Scan.{append}
use axcomp.Lexer.Directive.{
  skip_ws, is_name_char, is_main, apply_directive, scan_switch, scan_directive,
}
use axcomp.Lexer.Ends.Skip.{Leaves, Reads, Leaves-le, Reads-le, available-if_newline, get-lt}
use axcomp.Lexer.Ends.Scan.{append-Adds, scan_while-Reads, name_char-eof}

skip_ws_at_end : (f : ℕ) (lx : Lexer) → 0 < f → Reads (available lx) (skip_ws f eof lx)
unfolding skip_ws
skip_ws_at_end zero lx h = elim h [ ]
skip_ws_at_end (suc f) lx h = returns (omega arith)

skip_ws-Reads :
    (f c : ℕ) (lx : Lexer) → available lx + 1 < f → Reads (available lx) (skip_ws f c lx)
unfolding skip_ws
skip_ws-Reads zero c lx h = elim h [ ]
skip_ws-Reads (suc f) c lx h =
    let lx1 : Lexer = if c == b'\n' then set_newline lx else lx in
    let same : available lx1 ≡ available lx = available-if_newline (c == b'\n') lx in
    let le : available (get lx1).1 ≤ available lx1 = available-get-le lx1 in
    Ends-if (not (c == eof) && is_space c)
      (λ _. elim (Bool-cases ((get lx1).0 == eof)) [
        | inl e ↦
            let here : (get lx1).0 ≡ eof = (==_iff (get lx1).0 eof).0 e in
            rw here (Reads-le _ _ (omega arith) (skip_ws_at_end f (get lx1).1 (omega arith)))
        | inr e ↦
            let less : available (get lx1).1 < available lx1 = get-lt lx1 e in
            Reads-le _ _ (omega arith) (skip_ws-Reads f (get lx1).0 (get lx1).1 (omega arith))
      ])
      (λ _. returns (omega arith))

available-output_main :
    (b : Bool) (lx : Lexer) → available (record lx { output_main = some b }) ≡ available lx
unfolding available
available-output_main b lx = refl

apply_directive-Leaves :
    (name : Text) (enable : Bool) (o : Option Bool) (lx : Lexer)
    → Leaves (available lx) (apply_directive name enable o lx)
unfolding apply_directive
apply_directive-Leaves name enable none lx =
    Ends-if (not (is_main name)) (λ _. throws) (λ _. returns (omega arith))
apply_directive-Leaves name enable (some _) lx =
    Ends-if (is_main name) (λ _. returns (omega (arith, available-output_main enable lx)))
      (λ _. throws)

scan_switch-Leaves :
    (f : ℕ) (name : Text) (lx : Lexer)
    → available lx + 1 < f
    → Leaves (available lx) (scan_switch f name lx)
unfolding scan_switch
scan_switch-Leaves f name lx h =
    let le : available (get lx).1 ≤ available lx = available-get-le lx in
    Ends-bind (skip_ws-Reads f (get lx).0 (get lx).1 (omega arith)) λ (c, lx1) le1.
      let le1' : available (get lx1).1 ≤ available lx1 = available-get-le lx1 in
      Ends-if (not (c == b'+') && not (c == b'-')) (λ _. throws)
        λ _. Ends-bind (skip_ws-Reads f (get lx1).0 (get lx1).1 (omega arith)) λ (d, lx2) le2.
          let le2' : available (get lx2).1 ≤ available lx2 = available-get-le lx2 in
          Ends-if (not (d == b'*')) (λ _. throws)
            λ _.
              Ends-if (not ((get lx2).0 == b'>')) (λ _. throws)
                λ _.
                  Leaves-le _ _ (omega arith)
                    (apply_directive-Leaves name (c == b'+') lx2.output_main (get lx2).1)

-- The `*` behind `<` is always taken.
pub scan_directive-Leaves :
    (u : Unicode)
    → IsUnicode u
    → (f : ℕ) (lx : Lexer) → available (get lx).1 + 1 < f
    → Leaves (available (get lx).1) (scan_directive u f lx)
unfolding scan_directive
scan_directive-Leaves u lib f lx h =
    let lx0 : Lexer = (get lx).1 in
    let le1 : available (get lx0).1 ≤ available lx0 = available-get-le lx0 in
    Ends-bind (skip_ws-Reads f (get lx0).0 (get lx0).1 (omega arith)) λ (c, lx1) le2.
      Ends-if (c == eof) (λ _. throws)
        λ _.
          Ends-if (not (is_name_char u c)) (λ _. throws)
            λ _. Ends-bind (append-Adds u [] c) λ s _.
              Ends-bind
                (scan_while-Reads (is_name_char u) (append u) (name_char-eof u lib) (append-Adds u)
                  f s lx1 (omega arith))
                λ r le3. Leaves-le _ _ (omega arith) (scan_switch-Leaves f r.0 r.1 (omega arith))
