-- ===== src/Lexer/State.antt =====
-- The state of `LexerUTF8`, and its reads of one character.
use axcomp.Prelude.{
  ℕ, ◌+◌, ◌≡◌, refl, ◌<◌, ◌≤◌, ◌≢◌, arith, Bool, List, [], ◌∷◌, Option, ◌==◌, if◌then◌else◌, length,
}
use axcomp.Error.{Location}
use axcomp.Token.{Token, TokenType, type_eq}
use axcomp.Lexer.Unicode.{eof}

-- `rest` holds the code points from `cursor` to the end of `buffer`: the constructor has found the
-- whole text valid, so `utf8::next` throws nowhere. `output_main` is the flag behind `options`,
-- and none where the pointer is null. The head of `next_token` is the top of the stack.
pub record Lexer : Type 0 where
  pub rest : List ℕ
  pub next_token : List Token
  pub line_no : ℕ
  pub char_pos : ℕ
  pub last_char : ℕ
  pub output_main : Option Bool

abbrev pub get_location : Lexer → Location
get_location lx = record { line_no = lx.line_no; char_pos = lx.char_pos }

abbrev pub push_char : ℕ → Lexer → Lexer
push_char c lx = record lx { last_char = c }

abbrev pub set_newline : Lexer → Lexer
set_newline lx = record lx { line_no = lx.line_no + 1; char_pos = 0 }

abbrev next_char : List ℕ → Lexer → ℕ × Lexer
next_char [] lx = (eof, lx)
next_char (c ∷ cs) lx = (c, record lx { rest = cs; char_pos = lx.char_pos + 1 })

-- `get`
unfoldable pub get : Lexer → ℕ × Lexer
get lx =
    if lx.last_char == 0 then next_char lx.rest lx else (lx.last_char, record lx { last_char = 0 })

abbrev pub front : List ℕ → ℕ
front [] = eof
front (c ∷ _) = c

-- `peek`
unfoldable pub peek : Lexer → ℕ
peek lx = if lx.last_char == 0 then front lx.rest else lx.last_char

-- What a token that is put back counts: the end of the text can be read again and again.
abbrev pub weight : Token → ℕ
weight t = if type_eq t.type TokenType.eof then 0 else 1

pub weight-le : (t : Token) → weight t ≤ 1
weight-le t = ground arith

abbrev pub weights : List Token → ℕ
weights [] = 0
weights (t ∷ ts) = weight t + weights ts

-- The number of characters and of tokens that are left to read.
unfoldable pub available : Lexer → ℕ
available lx = length lx.rest + (if lx.last_char == 0 then 0 else 1) + weights lx.next_token

-- A read takes one character away, unless the end of the text is reached.
pub available-get-le : (lx : Lexer) → available (get lx).1 ≤ available lx
unfolding available get
available-get-le lx = go lx.rest refl
  where
    go :
        (cs : List ℕ)
        → lx.rest ≡ cs
        → available
            (if lx.last_char == 0
              then next_char cs lx
              else (lx.last_char, record lx { last_char = 0 })).1
          ≤ length cs + (if lx.last_char == 0 then 0 else 1) + weights lx.next_token
    go [] e = ground arith
    go (c ∷ cs) e = ground arith

pub available-get-lt : (lx : Lexer) → (get lx).0 ≢ eof → available (get lx).1 < available lx
unfolding available get
available-get-lt lx = go lx.rest refl
  where
    go :
        (cs : List ℕ)
        → lx.rest ≡ cs
        → (if lx.last_char == 0
            then next_char cs lx
            else (lx.last_char, record lx { last_char = 0 })).0
          ≢ eof
        → available
            (if lx.last_char == 0
              then next_char cs lx
              else (lx.last_char, record lx { last_char = 0 })).1
          < length cs + (if lx.last_char == 0 then 0 else 1) + weights lx.next_token
    go [] e h = ground arith
    go (c ∷ cs) e h = ground arith

-- `peek` shows the character that `get` reads.
pub peek-get : (lx : Lexer) → peek lx ≡ (get lx).0
unfolding peek get
peek-get lx = go lx.rest
  where
    go :
        (cs : List ℕ)
        → (if lx.last_char == 0 then front cs else lx.last_char)
          ≡ (if lx.last_char == 0
              then next_char cs lx
              else (lx.last_char, record lx { last_char = 0 })).0
    go [] = ground arith
    go (c ∷ cs) = ground arith

-- A character that is put back behind a read is one more to read.
pub available-push_char :
    (lx : Lexer) → available (push_char b'.' (get lx).1) ≡ available (get lx).1 + 1
unfolding available get
available-push_char lx = go lx.rest refl
  where
    go :
        (cs : List ℕ)
        → lx.rest ≡ cs
        → available (
            push_char b'.'
              (if lx.last_char == 0
                then next_char cs lx
                else (lx.last_char, record lx { last_char = 0 })).1)
          ≡ available
              (if lx.last_char == 0
                then next_char cs lx
                else (lx.last_char, record lx { last_char = 0 })).1
            + 1
    go [] e = ground arith
    go (c ∷ cs) e = ground arith

-- A token on the stack is one more to read.
pub available-next_token :
    (t : Token) (ts : List Token) (lx : Lexer)
    → available (record lx { next_token = t ∷ ts })
      ≡ available (record lx { next_token = ts }) + weight t
unfolding available
available-next_token t ts lx = omega arith
