-- ===== src/Parser/State.antt =====
-- What the parser works on, `Parser` of src/compiler/parser.hh: the lexer and the table of symbols,
-- which it shares with the other passes.
use axcomp.Prelude.{ℕ, Bool, List, ◌++◌, Option, none, some, if◌then◌else◌, Text, codes}
use axcomp.Error.{Result, ok, err, out_of_fuel, parse, null_pointer, invalid_code_point}
use axcomp.Token.{TokenType, Token, type_eq, type_name, token_text}
use axcomp.Attr.{Attr}
use axcomp.Types.{TypeNode}
use axcomp.Lexer.Unicode.{Unicode}
use axcomp.Lexer.State.{Lexer, get_location}
use axcomp.Lexer.Tokenize
use axcomp.SymbolTable.Frames
use axcomp.SymbolTable.Frames.{Frames}

-- `std::stod`: the bit pattern of a double, or one of the exceptions that it throws.
pub data Stod : Type 0 where
  value : ℕ → Stod
  invalid_argument out_of_range : Stod

-- The libraries that the lexer and the parser call.
pub record Library : Type 0 where
  pub unicode : Unicode
  pub stod : Text → Stod

-- `Symbol`, as far as the parser makes and reads it.
pub record Symbol : Type 0 where
  pub type : TypeNode
  pub attrs : List Attr

pub record State : Type 0 where
  pub lexer : Lexer
  pub symbols : Frames Symbol

abbrev pub Parse : Type 0 → Type 0
Parse A = State → Result (A × State)

abbrev pub run_on : {A B : Type 0} → Result (A × State) → (A → Parse B) → Result (B × State)
run_on (ok (a, s)) k = k a s
run_on (err e) k = err e
run_on out_of_fuel k = out_of_fuel

infixl 5 ◌>>=◌ ◌>>◌
abbrev pub ◌>>=◌ : {A B : Type 0} → Parse A → (A → Parse B) → Parse B
(m >>= k) s = run_on (m s) k

abbrev pub ◌>>◌ : {A B : Type 0} → Parse A → Parse B → Parse B
m >> k = m >>= λ _. k

abbrev pub pure : {A : Type 0} → A → Parse A
pure a s = ok (a, s)

-- `throw ParseException(lexer.get_location(), …)`
abbrev pub throw : {A : Type 0} → Text → Parse A
throw msg s = err (parse (get_location s.lexer) msg)

abbrev pub fuel_out : {A : Type 0} → Parse A
fuel_out s = out_of_fuel

-- A print, where none is an exception of `utf8::append`.
unfoldable pub printed : Option Text → Parse Text
printed none s = err invalid_code_point
printed (some t) s = ok (t, s)

-- A call of a function that reads no state.
abbrev pub lift_result : {A : Type 0} → Result A → Parse A
lift_result (ok a) s = ok (a, s)
lift_result (err e) s = err e
lift_result out_of_fuel s = out_of_fuel

abbrev pub with_lexer : State → Result (Token × Lexer) → Result (Token × State)
with_lexer s (ok (t, lx)) = ok (t, record s { lexer = lx })
with_lexer s (err e) = err e
with_lexer s out_of_fuel = out_of_fuel

-- The methods of the lexer.
unfoldable pub next : Library → Parse Token
next lib s = with_lexer s (Tokenize.get_token lib.unicode s.lexer)

unfoldable pub peek : Library → Parse Token
peek lib s = with_lexer s (Tokenize.peek_token lib.unicode s.lexer)

unfoldable pub push : Token → Parse (Unit {0})
push t s = ok (tt, record s { lexer = Tokenize.push_token t s.lexer })

-- The methods of the table of symbols, where none is a null pointer that is followed.
abbrev pub with_frames : State → Option (Frames Symbol) → Result (Unit {0} × State)
with_frames s none = err null_pointer
with_frames s (some fr) = ok (tt, record s { symbols = fr })

abbrev pub found_frames :
    State → Option (Option Symbol × Frames Symbol) → Result (Option Symbol × State)
found_frames s none = err null_pointer
found_frames s (some (o, fr)) = ok (o, record s { symbols = fr })

unfoldable pub find : Text → Parse (Option Symbol)
find name s = found_frames s (Frames.find name s.symbols)

unfoldable pub put : Text → Symbol → Parse (Unit {0})
put name v s = with_frames s (Frames.put name v s.symbols)

unfoldable pub push_frame : Text → Parse (Unit {0})
push_frame name s = ok (tt, record s { symbols = Frames.push_frame name s.symbols })

unfoldable pub pop_frame : Parse (Unit {0})
pop_frame s = with_frames s (Frames.pop_frame s.symbols)

-- `Parser::get_token`
abbrev pub is_type : Token → TokenType → Bool
is_type tok t = type_eq tok.type t

unfoldable pub get_token : Library → TokenType → Parse Token
get_token lib t = do
  tok ← next lib
  if is_type tok t
      then pure tok
      else throw
          (codes "Unexpected token: " ++ token_text tok ++ codes " - expecting " ++ type_name t)
