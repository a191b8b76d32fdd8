-- ===== src/Lexer/Comments/Depth.antt =====
-- The specification of a comment's end, and the reads of a text without a character put back.
use mathlib.Core.List.{tail}
use axcomp.Prelude.{
  ℕ, zero, suc, ◌+◌, ◌≤◌, ◌≡◌, refl, arith, Bool, true, false, ◌&&◌, ◌==◌, List, [], ◌∷◌, Option,
  none, some, if◌then◌else◌, length,
}
use axcomp.Token.{Token}
use axcomp.Lexer.Unicode.{eof}
use axcomp.Lexer.State.{Lexer, get, front}

-- What is left behind the end of `d` comments that are open, if they all end.
unfoldable pub close : ℕ → List ℕ → Option (List ℕ)
close zero cs = some cs
close (suc d) [] = none
close (suc d) (a ∷ []) = none
close (suc d) (a ∷ b ∷ cs) =
    let closed = close d cs in
    let opened = close (suc (suc d)) cs in
    let other = close (suc d) (b ∷ cs) in
    if a == b'*' && b == b')' then closed else if a == b'(' && b == b'*' then opened else other

abbrev pub ends : ℕ → List ℕ → Bool
ends a cs = a == b'*' && front cs == b')'

abbrev pub begins : ℕ → List ℕ → Bool
begins a cs = a == b'(' && front cs == b'*'

pub close-step :
    (d a : ℕ) (cs : List ℕ)
    → close (suc d) (a ∷ cs) ≡ (
        if ends a cs
        then close d (tail cs)
        else if begins a cs
        then close (suc (suc d)) (tail cs)
        else close (suc d) cs)
unfolding close
close-step d a [] = ground arith
close-step d a (b ∷ cs) = ground arith

-- The line ends of a text.
abbrev pub newlines : List ℕ → ℕ
newlines [] = 0
newlines (c ∷ cs) = (if c == b'\n' then 1 else 0) + newlines cs

pub newlines-tail :
    (cs : List ℕ) (mark : ℕ)
    → (front cs == mark) ≡ true
    → (mark == b'\n') ≡ false
    → newlines (tail cs) ≡ newlines cs
newlines-tail [] mark h k = refl
newlines-tail (c ∷ cs) mark h k = ground arith

abbrev pub NoEof : List ℕ → Type 0
NoEof [] = Unit
NoEof (c ∷ cs) = ((c == eof) ≡ false) × NoEof cs

pub NoEof-tail : (cs : List ℕ) → NoEof cs → NoEof (tail cs)
NoEof-tail [] h = tt
NoEof-tail (c ∷ cs) h = h.1

pub length-tail : (cs : List ℕ) → length (tail cs) ≤ length cs
length-tail [] = omega arith
length-tail (c ∷ cs) = omega arith

-- The lexer before the text `cs`, at a line and a column, with no character put back.
abbrev pub before : List Token → Option Bool → List ℕ → ℕ → ℕ → Lexer
before ts o cs l p = record {
  rest = cs;
  next_token = ts;
  line_no = l;
  char_pos = p;
  last_char = 0;
  output_main = o;
}

pub get-tail :
    (ts : List Token) (o : Option Bool) (cs : List ℕ) (l p : ℕ)
    → (p' : ℕ) × ((get (before ts o cs l p)).1 ≡ before ts o (tail cs) l p')
unfolding get
get-tail ts o [] l p = (p, refl)
get-tail ts o (c ∷ cs) l p = (p + 1, refl)
