-- ===== src/Parser/Names.antt =====
-- Names that a point may qualify, and the statements that begin with a name:
-- `parse_qualident` and `parse_statement` of src/compiler/parser.cc.
use axcomp.Prelude.{
  ℕ, ◌≡◌, refl, ap, arith, Bool, true, false, ◌||◌, [], ◌++◌, Option, some, codes, if◌then◌else◌,
}
use axcomp.Error.{ok, err, parse}
use axcomp.Token.{
  Token, TokenType, type_eq, token_text, ident, period, l_paren, semicolon, kw_end, assign,
}
use axcomp.Token
use axcomp.Lexer.State.{Lexer, get_location}
use axcomp.Lexer.Tokenize
use axcomp.Lexer.Tokenize.{peek_token, push_token}
use axcomp.Lexer.Stack.{get_token-push_token, peek_token-get_token}
use axcomp.SymbolTable.Frames
use axcomp.SymbolTable.Frames.{Frames}
use axcomp.Ast.Expr.{AstQualident, AstDesignator}
use axcomp.Parser.State.{Library, Symbol, State, ◌>>=◌, ◌>>◌, pure, next, peek, find, push, is_type}
use axcomp.Parser.State as Parsing
use axcomp.Parser.Basic.{identifier, is_module, qualified, parse_qualident}
use axcomp.Parser.Expr.{parse_designator}
use axcomp.Parser.Stmt.{parse_designated, parse_assignment}

module _ (lib : Library) where
  is_type_refl : (t : Token) (u : TokenType) → t.type ≡ u → is_type t u ≡ true
  unfolding Token.ordinal
  is_type_refl t u e =
      let same : Token.ordinal t.type ≡ Token.ordinal u = ap Token.ordinal e in ground arith

  -- A token of the type that is expected is given.
  get_token-given :
      (s : State) (t : Token) (lx : Lexer) (u : TokenType)
      → Tokenize.get_token lib.unicode s.lexer ≡ ok (t, lx)
      → t.type ≡ u
      → Parsing.get_token lib u s ≡ ok (t, record s { lexer = lx })
  unfolding Parsing.get_token next
  get_token-given s t lx u e h = rw (e, is_type_refl t u h) refl

  peek-given :
      (s : State) (t : Token) (lx : Lexer)
      → Tokenize.get_token lib.unicode s.lexer ≡ ok (t, lx)
      → peek lib s ≡ ok (t, record s { lexer = push_token t lx })
  unfolding peek
  peek-given s t lx e = rw (peek_token-get_token lib.unicode t s.lexer lx e) refl

  next-push_token :
      (s : State) (t : Token) → next lib (record s { lexer = push_token t s.lexer }) ≡ ok (t, s)
  unfolding next
  next-push_token s t = rw (get_token-push_token lib.unicode t s.lexer) refl

  qualified-cases :
      (s : State) (t1 t2 t3 : Token) (lx3 : Lexer) (res : Option Symbol) (fr : Frames Symbol)
      → Tokenize.get_token lib.unicode s.lexer ≡ ok (t3, lx3)
      → t3.type ≡ ident
      → Frames.find t1.val s.symbols ≡ some (res, fr)
      → qualified lib t1 t2 s ≡ (
          if is_module res
          then ok (
            record { qual = t1.val; id = identifier t3.val },
            record { lexer = lx3; symbols = fr },
          )
          else ok (
            record { qual = []; id = identifier t1.val },
            record { lexer = push_token t2 (push_token t3 lx3); symbols = fr },
          ))
  unfolding qualified find push
  qualified-cases s t1 t2 t3 lx3 res fr e h found =
      rw (get_token-given s t3 lx3 ident e h) (rw found (both (is_module res)))
    where
      both :
          (b : Bool)
          → (if b
                then pure {A = AstQualident} (record { qual = t1.val; id = identifier t3.val })
                else do push t3; push t2; pure (record { qual = []; id = identifier t1.val }))
              (record { lexer = lx3; symbols = fr })
            ≡ (if b
                then ok (
                  record { qual = t1.val; id = identifier t3.val },
                  record { lexer = lx3; symbols = fr },
                )
                else ok (
                  record { qual = []; id = identifier t1.val },
                  record { lexer = push_token t2 (push_token t3 lx3); symbols = fr },
                ))
      both true = refl
      both false = refl

  -- Where the next three tokens are a name, a point and a name, and the table of symbols has an
  -- outcome for the first name, `parse_qualident` takes all three if the first name is that of a
  -- module, and gives the second name qualified by the first; otherwise it gives the first name alone,
  -- and the point and the second name are the next tokens again.
  pub parse_qualident-cases :
      (s : State) (t1 t2 t3 : Token) (lx1 lx2 lx3 : Lexer) (res : Option Symbol)
      (fr : Frames Symbol)
      → Tokenize.get_token lib.unicode s.lexer ≡ ok (t1, lx1)
      → Tokenize.get_token lib.unicode lx1 ≡ ok (t2, lx2)
      → Tokenize.get_token lib.unicode lx2 ≡ ok (t3, lx3)
      → t1.type ≡ ident
      → t2.type ≡ period
      → t3.type ≡ ident
      → Frames.find t1.val s.symbols ≡ some (res, fr)
      → parse_qualident lib s ≡ (
          if is_module res
          then ok (
            record { qual = t1.val; id = identifier t3.val },
            record { lexer = lx3; symbols = fr },
          )
          else ok (
            record { qual = []; id = identifier t1.val },
            record { lexer = push_token t2 (push_token t3 lx3); symbols = fr },
          ))
  unfolding parse_qualident
  parse_qualident-cases s t1 t2 t3 lx1 lx2 lx3 res fr e1 e2 e3 h1 h2 h3 found =
      rw (get_token-given s t1 lx1 ident e1 h1) (
        rw (peek-given (record s { lexer = lx1 }) t2 lx2 e2) (
          rw (is_type_refl t2 period h2, next-push_token (record s { lexer = lx2 }) t2)
            (qualified-cases (record s { lexer = lx2 }) t1 t2 t3 lx3 res fr e3 h3 found)))

  -- The types of the tokens behind the designator of a call or of an assignment.
  abbrev pub after_designator : TokenType → Bool
  after_designator t =
      type_eq t l_paren || type_eq t semicolon || type_eq t kw_end || type_eq t assign

  -- A statement whose designator is parsed is refused, unless `(`, `;`, `END` or `:=` is the token
  -- behind it: so a call without parentheses is refused in front of `ELSE`, `ELSIF`, `UNTIL` and `|`.
  pub parse_designated-refused :
      (f : ℕ) (s s1 : State) (d : AstDesignator) (tok : Token) (lx : Lexer)
      → parse_designator lib f s ≡ ok (d, s1)
      → Tokenize.get_token lib.unicode s1.lexer ≡ ok (tok, lx)
      → after_designator tok.type ≡ false
      → parse_designated lib f s
        ≡ err (
            parse (get_location lx) (
              codes "Unexpected token: "
              ++ token_text tok
              ++ codes " - expecting "
              ++ Token.type_name assign))
  unfolding parse_designated parse_assignment Parsing.get_token
  parse_designated-refused f s s1 d tok lx parsed read other =
      let no_call : (is_type tok l_paren || is_type tok semicolon || is_type tok kw_end) ≡ false =
        ground arith in
      let no_assign : is_type tok assign ≡ false = ground arith in
      rw parsed (
        rw (peek-given s1 tok lx read, no_call, next-push_token (record s1 { lexer = lx }) tok)
          (rw no_assign refl))
