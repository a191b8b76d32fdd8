-- ===== src/Lexer/Stack.antt =====
-- The stack of tokens: `peek_token`, `push_token` and `get_token` of src/compiler/lexer.cc.
use axcomp.Prelude.{◌≡◌, refl, ap, sym, List, [], ◌∷◌}
use axcomp.Error.{Result, ok, err, out_of_fuel, ◌>>=◌}
use axcomp.Token.{Token}
use axcomp.Lexer.Unicode.{Unicode}
use axcomp.Lexer.State.{Lexer}
use axcomp.Lexer.Tokenize.{get_token, push_token, show_or, peek_token, pop_or, scan_token, fuel}

-- What was pushed last is read first, and the lexer is then as it was before.
pub get_token-push_token :
    (u : Unicode) (t : Token) (lx : Lexer) → get_token u (push_token t lx) ≡ ok (t, lx)
unfolding get_token push_token
get_token-push_token u t lx = refl

pub peek_token-push_token :
    (u : Unicode) (t : Token) (lx : Lexer)
    → peek_token u (push_token t lx) ≡ ok (t, push_token t lx)
unfolding peek_token push_token
peek_token-push_token u t lx = refl

abbrev then_get : Unicode → Result (Token × Lexer) → Result (Token × Lexer)
then_get u r = r >>= λ p. get_token u p.1

abbrev then_peek : Unicode → Result (Token × Lexer) → Result (Token × Lexer)
then_peek u r = r >>= λ p. peek_token u p.1

abbrev shown : Result (Token × Lexer) → Result (Token × Lexer)
shown r = r >>= λ p. ok (p.0, push_token p.0 p.1)

shown-get : (u : Unicode) (r : Result (Token × Lexer)) → then_get u (shown r) ≡ r
shown-get u (ok p) = get_token-push_token u p.0 p.1
shown-get u (err e) = refl
shown-get u out_of_fuel = refl

shown-peek : (u : Unicode) (r : Result (Token × Lexer)) → then_peek u (shown r) ≡ shown r
shown-peek u (ok p) = peek_token-push_token u p.0 p.1
shown-peek u (err e) = refl
shown-peek u out_of_fuel = refl

-- Looking at the next token changes nothing for what comes after: a read behind it gives the token,
-- the state and the exceptions that a read gives without it, and a second look what the first gave.
pub get_token-peek_token :
    (u : Unicode) (lx : Lexer)
    → ((peek_token u lx >>= λ p. get_token u p.1) ≡ get_token u lx)
      × ((peek_token u lx >>= λ p. peek_token u p.1) ≡ peek_token u lx)
unfolding peek_token
get_token-peek_token u lx = (get lx.next_token refl, again lx.next_token refl)
  where
    get :
        (ts : List Token)
        → lx.next_token ≡ ts
        → then_get u (show_or ts (get_token u lx) lx) ≡ get_token u lx
    get [] e = shown-get u (get_token u lx)
    get (t ∷ ts) e = refl

    again :
        (ts : List Token)
        → lx.next_token ≡ ts
        → then_peek u (show_or ts (get_token u lx) lx) ≡ show_or ts (get_token u lx) lx
    again [] e = shown-peek u (get_token u lx)
    again (t ∷ ts) e = rw e refl

-- A look at the next token is a read of it, which is then put back.
pub peek_token-get_token :
    (u : Unicode) (t : Token) (lx lx' : Lexer)
    → get_token u lx ≡ ok (t, lx')
    → peek_token u lx ≡ ok (t, push_token t lx')
unfolding peek_token push_token get_token
peek_token-get_token u t lx lx' e = go lx.next_token refl e
  where
    go :
        (ts : List Token)
        → lx.next_token ≡ ts
        → pop_or ts (scan_token u (fuel lx) lx) lx ≡ ok (t, lx')
        → show_or ts (pop_or ts (scan_token u (fuel lx) lx) lx) lx
          ≡ ok (t, record lx' { next_token = t ∷ lx'.next_token })
    go [] stack h = rw h refl
    go (t1 ∷ ts) stack h =
        let whole : record lx { next_token = t1 ∷ ts } ≡ lx =
          ap (λ x. record lx { next_token = x }) (sym stack) in
        let first : t1 ≡ t = cc h in
        let left : record lx { next_token = ts } ≡ lx' = cc h in
        rw⁻¹ first (rw⁻¹ left (ap (λ x. ok (t1, x)) (sym whole)))
