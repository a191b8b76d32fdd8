-- ===== src/Lexer/EndOfText.antt =====
-- The end of the text and the cast to `char` in `get_token` of src/compiler/lexer.cc.
use axcomp.Prelude.{
  ℕ, suc, ◌+◌, ◌%◌, ◌≤◌, ◌≡◌, refl, arith, Bool, false, ◌==◌, List, [], ◌∷◌, Option, some, length,
}
use axcomp.Error.{ok}
use axcomp.Token.{Token, bare, eof}
use axcomp.Lexer.Unicode.{Unicode}
use axcomp.Lexer.Unicode
use axcomp.Lexer.Tables.{single_tokens, find_single}
use axcomp.Lexer.State.{Lexer, get, available}
use axcomp.Lexer.Skip.{get_char}
use axcomp.Lexer.Tokenize.{get_token, scan_token, scan_char, directives, fuel}
use axcomp.Lexer.Comments.Depth.{before}

-- At the end of the text every read gives the token `Eof` and changes nothing.
pub get_token-at_end :
    (u : Unicode) (o : Option Bool) (l p : ℕ)
    → get_token u (before [] o [] l p) ≡ ok (bare eof, before [] o [] l p)
unfolding get_token scan_token get_char get directives scan_char find_single available
get_token-at_end u o l p = refl

get_char-low_byte :
    (f c : ℕ) (o : Option Bool) (cs : List ℕ) (l p : ℕ)
    → 128 ≤ c
    → (c == Unicode.eof) ≡ false
    → get_char (suc f) (before [] o (c ∷ cs) l p) ≡ ok (c, before [] o cs l (p + 1))
unfolding get_char get
get_char-low_byte f c o cs l p big real = ground arith

directives-low_byte :
    (u : Unicode) (f c : ℕ) (lx : Lexer) → 128 ≤ c → directives u (suc f) c lx ≡ ok (c, lx)
unfolding directives
directives-low_byte u f c lx big = ground arith

fuel-cons :
    (o : Option Bool) (c : ℕ) (cs : List ℕ) (l p : ℕ)
    → fuel (before [] o (c ∷ cs) l p) ≡ suc (suc (suc (length cs)))
unfolding available
fuel-cons o c cs l p = omega arith

-- A code point of 128 or more, other than -1, whose low byte is the key of a token of one character
-- is read as that token, whatever letter it is.
pub get_token-low_byte :
    (u : Unicode) (o : Option Bool) (c : ℕ) (cs : List ℕ) (l p : ℕ) (t : Token)
    → 128 ≤ c
    → (c == Unicode.eof) ≡ false
    → find_single (c % 256) single_tokens ≡ some t
    → get_token u (before [] o (c ∷ cs) l p) ≡ ok (t, before [] o cs l (p + 1))
unfolding get_token scan_token scan_char
get_token-low_byte u o c cs l p t big real found =
    let f : ℕ = suc (suc (length cs)) in
    rw (fuel-cons o c cs l p, get_char-low_byte f c o cs l p big real)
      (rw (directives-low_byte u f c (before [] o cs l (p + 1)) big, found) refl)
