-- ===== src/Inspector/Typing/Constants.antt =====
-- What is evaluated is constant: `eval_const_int` of src/compiler/inspector.cc.
use axcomp.Prelude.{
  arith, ℕ, ◌≡◌, refl, Bool, true, false, ◌&&◌, ◌||◌, ◌==◌, ◌-◌, ◌^◌, Bool-cases, inl, inr, List,
  [], Option, none, some, text_eq, if◌then◌else◌,
}
use axcomp.Error.{Result, ok, err, out_of_fuel, division_overflow}
use axcomp.Token.{TokenType, type_eq, asterix, kw_div, kw_mod}
use axcomp.Ast.Expr
use axcomp.Inspector.Words.{divided, quotient, remainder}
use axcomp.Error
use axcomp.Ast.Expr.{
  AstIdentifier, AstExpr, AstSimpleExpr, Adds, AstTerm, Mults, AstFactor, designator, no_selectors,
}
use axcomp.SymbolTable.Frames.Invariant.{IsValid}
use axcomp.SymbolTable.Frames.Scoping.{visible}
use axcomp.Lexer.Unicode.{Unicode}
use axcomp.Inspector.State.{
  with_state, reading, State, Complaint, Inspect, go_on, ◌>>=◌, pure, gets, find, symbol, on_option,
}
use axcomp.Inspector.Names.{get_qualident, rewritten}
use axcomp.Inspector.Fold.{
  ◌>?◌, signed_value, known, fold_mult, eval_designator, eval_expr, eval_simple, eval_adds,
  eval_term, eval_mults, eval_factor,
}
use axcomp.Inspector.Expr.{visit_expr}
use axcomp.Inspector.Typing.{
  Scope, IsNamed, plain_name, HasExpr, plain, relation, HasSimple, simple_expr, HasAdds, no_adds,
  add, HasTerm, term, HasMults, no_mults, mult, HasFactor, name, integer, real, boolean, character,
  string, nil, set, parenthesised, negation,
}
use axcomp.Inspector.Typing.Gives.{
  Gives, gives, Gives-bind, In, At, find-Gives, pure-Gives, symbol-Gives,
}
use axcomp.Inspector.Typing.Complete.{visit_expr-Gives}

-- Whether a DIV or a MOD is among the operators that are evaluated: those outside of relations, sets,
-- calls, selectors and `~`.
abbrev is_division : TokenType → Bool
is_division op = type_eq op kw_div || type_eq op kw_mod

unfoldable mutual
  pub divides : AstExpr → Bool
  divides (Expr.plain e) = divides_simple e
  divides (Expr.relation e op d) = false

  divides_simple : AstSimpleExpr → Bool
  divides_simple (Expr.simple_expr sign t rest) = divides_term t || divides_adds rest

  divides_adds : Adds → Bool
  divides_adds Expr.no_adds = false
  divides_adds (Expr.add op t rest) = divides_term t || divides_adds rest

  divides_term : AstTerm → Bool
  divides_term (Expr.term e rest) = divides_factor e || divides_mults rest

  divides_mults : Mults → Bool
  divides_mults Expr.no_mults = false
  divides_mults (Expr.mult op e rest) = is_division op || divides_factor e || divides_mults rest

  divides_factor : AstFactor → Bool
  divides_factor (Expr.parenthesised e) = divides e
  divides_factor (Expr.designated d) = false
  divides_factor (Expr.integer n hex) = false
  divides_factor (Expr.real v style) = false
  divides_factor (Expr.called c) = false
  divides_factor (Expr.boolean b) = false
  divides_factor (Expr.character n hex) = false
  divides_factor (Expr.string t delim) = false
  divides_factor (Expr.set ls) = false
  divides_factor Expr.nil = false
  divides_factor (Expr.negation e) = false

-- The evaluation returns nothing, or a value, and then `P` holds; or it divides the least number by -1,
-- and then `D` holds.
pub data Folds (E : Scope) (es : List Complaint) (D P : Type 0)
    : Result (Option (Option ℕ) × State) → Type 0 where
  nothing : {s : State} → In E es s → Folds E es D P (ok (some none, s))
  value : {n : ℕ} {s : State} → P → In E es s → Folds E es D P (ok (some (some n), s))
  overflow : D → Folds E es D P (err division_overflow)

module _ {E : Scope} {es : List Complaint} {D P : Type 0} where
  none-Folds : (s : State) → In E es s → Folds E es D P (pure none s)
  unfolding pure
  none-Folds s h = nothing h

  some-Folds : (n : ℕ) (s : State) → P → In E es s → Folds E es D P (pure (some n) s)
  unfolding pure
  some-Folds n s p h = value p h

  -- The value of an operator, where it has one.
  option-Folds : (o : Option ℕ) (s : State) → P → In E es s → Folds E es D P (pure o s)
  option-Folds none s p h = none-Folds s h
  option-Folds (some n) s p h = some-Folds n s p h

  Gives-Folds :
      (o : Option ℕ) (r : Result (Option (Option ℕ) × State))
      → Gives o (In E es) r
      → ((n : ℕ) → o ≡ some n → P)
      → Folds E es D P r
  Gives-Folds none (ok (some none, s)) (gives h) p = nothing h
  Gives-Folds (some n) (ok (some (some m), s)) (gives h) p = value (p n refl) h
  Gives-Folds none (ok (none, s)) h p = elim h [ ]
  Gives-Folds none (ok (some (some m), s)) h p = elim h [ ]
  Gives-Folds none (err e) h p = elim h [ ]
  Gives-Folds none out_of_fuel h p = elim h [ ]
  Gives-Folds (some n) (ok (none, s)) h p = elim h [ ]
  Gives-Folds (some n) (ok (some none, s)) h p = elim h [ ]
  Gives-Folds (some n) (err e) h p = elim h [ ]
  Gives-Folds (some n) out_of_fuel h p = elim h [ ]

  -- A division by a number other than zero.
  divided-Folds :
      (a b n : ℕ) (s : State)
      → (b == 0) ≡ false
      → D
      → P
      → In E es s
      → Folds E es D P (with_state s (known (divided a b n)))
  divided-Folds a b n s other d p h = elim (Bool-cases (a == 2 ^ 63 && b == 2 ^ 64 - 1)) [
    | inl least ↦ rw other (rw least (overflow d))
    | inr small ↦ rw other (rw small (value p h))
  ]

module _ {E : Scope} {es : List Complaint} {P : Type 0} where
  Folds-map :
      {D D' : Type 0} (r : Result (Option (Option ℕ) × State))
      → (D → D')
      → Folds E es D P r
      → Folds E es D' P r
  Folds-map (ok (some none, s)) i (nothing h) = nothing h
  Folds-map (ok (some (some n), s)) i (value p h) = value p h
  Folds-map (err e) i (overflow d) = overflow (i d)
  Folds-map (ok (none, s)) i h = elim h [ ]
  Folds-map out_of_fuel i h = elim h [ ]

  -- The guard of the code is in front of every division, so that none is by zero.
  fold_mult-Folds :
      (op : TokenType) (a b : ℕ) (s : State)
      → P
      → In E es s
      → Folds E es (is_division op ≡ true) P (reading (λ _. fold_mult op a b) s)
  unfolding fold_mult reading quotient remainder
  fold_mult-Folds op a b s p h = elim (Bool-cases (type_eq op asterix)) [
    | inl times ↦ rw times (value p h)
    | inr other ↦ rw other (by_division (type_eq op kw_div) (type_eq op kw_mod) (b == 0) refl)
  ]
    where
      by_division :
          (is_div is_mod is_zero : Bool)
          → (b == 0) ≡ is_zero
          → Folds E es ((is_div || is_mod) ≡ true) P (
              with_state s (
                if is_div
                then (if is_zero then ok none else known (quotient a b))
                else if is_mod
                then (if is_zero then ok none else known (remainder a b))
                else ok none))
      by_division true is_mod true e = nothing h
      by_division true is_mod false e = divided-Folds a b _ s e refl p h
      by_division false true true e = nothing h
      by_division false true false e = divided-Folds a b _ s e refl p h
      by_division false false is_zero e = nothing h

module _ {E : Scope} {es : List Complaint} {D P Q : Type 0} where
  then-result :
      (k : ℕ → Inspect (Option ℕ)) (r : Result (Option (Option ℕ) × State))
      → Folds E es D P r
      → ((n : ℕ) (t : State) → P → In E es t → Folds E es D Q (k n t))
      → Folds E es D Q (Error.◌>>=◌ r (go_on λ o. on_option o (pure none) k))
  unfolding on_option
  then-result k (ok (some none, t)) (nothing h) g = none-Folds t h
  then-result k (ok (some (some n), t)) (value p h) g = g n t p h
  then-result k (err e) (overflow d) g = overflow d
  then-result k (ok (none, t)) h g = elim h [ ]
  then-result k out_of_fuel h g = elim h [ ]

  then-Folds :
      (m : Inspect (Option ℕ)) (k : ℕ → Inspect (Option ℕ)) (s : State)
      → Folds E es D P (m s)
      → ((n : ℕ) (t : State) → P → In E es t → Folds E es D Q (k n t))
      → Folds E es D Q ((m >? k) s)
  unfolding ◌>>=◌
  then-Folds m k s h g = then-result k (m s) h g

-- A constant's symbol: the value is that of the symbol, if it is constant.
name-Folds :
    {f : ℕ} {E : Scope} {es : List Complaint} {D : Type 0} (id : AstIdentifier) {t : ℕ} {c : Bool}
    (s : State)
    → IsNamed f E id.value t c
    → In E es s
    → Folds E es D (c ≡ true) (eval_designator (designator (plain_name id) no_selectors) s)
unfolding eval_designator rewritten get_qualident text_eq gets
name-Folds {E} {es} id {c} s n h =
    Gives-Folds (if c then n.object.const_value else none) _
      (Gives-bind (rewritten (plain_name id)) _ s (gives h) λ s h.
        Gives-bind (get_qualident (plain_name id)) _ s
          (Gives-bind (find []) _ s (find-Gives [] s h) λ s h. pure-Gives id.value s h)
          λ s h. Gives-bind (find id.value) _ s (find-Gives {E = E} {es = es} id.value s h) λ s h.
            rw n.stands (
              Gives-bind (symbol n.symbol) _ s (symbol-Gives n.symbol s n.there h)
                λ s h. rw n.constant (pure-Gives _ s h)))
      (by_flag c)
  where
    by_flag : (c : Bool) (m : ℕ) → (if c then n.object.const_value else none) ≡ some m → c ≡ true
    by_flag true m e = refl
    by_flag false m e = cc

and-true : {a b : Bool} → a ≡ true → b ≡ true → (a && b) ≡ true
and-true p q = ground arith

or-left : {a : Bool} (b : Bool) → a ≡ true → (a || b) ≡ true
or-left b p = ground arith

or-right : (a : Bool) {b : Bool} → b ≡ true → (a || b) ≡ true
or-right a p = ground arith

mutual
  unfolding eval_expr divides

  eval_expr-Folds :
      {f : ℕ} (E : Scope) (es : List Complaint) {e : AstExpr} {t : ℕ} {c : Bool} (s : State)
      → HasExpr f E e t c
      → In E es s
      → Folds E es (divides e ≡ true) (c ≡ true) (eval_expr e s)
  eval_expr-Folds E es s (plain h) k = eval_simple-Folds E es s h k
  eval_expr-Folds E es s (relation h g e) k = none-Folds s k

  eval_simple-Folds :
      {f : ℕ} (E : Scope) (es : List Complaint) {e : AstSimpleExpr} {t : ℕ} {c : Bool} (s : State)
      → HasSimple f E e t c
      → In E es s
      → Folds E es (divides_simple e ≡ true) (c ≡ true) (eval_simple e s)
  eval_simple-Folds E es s (simple_expr {sign} h g) k =
      then-Folds _ _ s (Folds-map _ (or-left _) (eval_term-Folds E es s h k))
        λ n s p k. Folds-map _ (or-right _) (eval_adds-Folds E es (signed_value sign n) s g p k)

  eval_adds-Folds :
      {f : ℕ} (E : Scope) (es : List Complaint) {rest : Adds} {l t : ℕ} {b c : Bool} (n : ℕ)
      (s : State)
      → HasAdds f E l b rest t c
      → b ≡ true
      → In E es s
      → Folds E es (divides_adds rest ≡ true) (c ≡ true) (eval_adds n rest s)
  eval_adds-Folds E es n s no_adds p k = some-Folds n s p k
  eval_adds-Folds E es n s (add h e g) p k =
      then-Folds _ _ s (Folds-map _ (or-left _) (eval_term-Folds E es s h k)) λ m s q k.
        then-Folds _ _ s (option-Folds _ s (and-true p q) k)
          λ r s pq k. Folds-map _ (or-right _) (eval_adds-Folds E es r s g pq k)

  eval_term-Folds :
      {f : ℕ} (E : Scope) (es : List Complaint) {e : AstTerm} {t : ℕ} {c : Bool} (s : State)
      → HasTerm f E e t c
      → In E es s
      → Folds E es (divides_term e ≡ true) (c ≡ true) (eval_term e s)
  eval_term-Folds E es s (term h g) k =
      then-Folds _ _ s (Folds-map _ (or-left _) (eval_factor-Folds E es s h k))
        λ n s p k. Folds-map _ (or-right _) (eval_mults-Folds E es n s g p k)

  eval_mults-Folds :
      {f : ℕ} (E : Scope) (es : List Complaint) {rest : Mults} {l t : ℕ} {b c : Bool} (n : ℕ)
      (s : State)
      → HasMults f E l b rest t c
      → b ≡ true
      → In E es s
      → Folds E es (divides_mults rest ≡ true) (c ≡ true) (eval_mults n rest s)
  eval_mults-Folds E es n s no_mults p k = some-Folds n s p k
  eval_mults-Folds E es n s (mult {op} h e g) p k =
      then-Folds _ _ s (Folds-map _ (λ d. or-left _ (or-right _ d)) (eval_factor-Folds E es s h k))
        λ m s q k.
          then-Folds _ _ s
            (Folds-map _ (λ d. or-left _ (or-left _ d)) (fold_mult-Folds op n m s (and-true p q) k))
            λ r s pq k. Folds-map _ (or-right _) (eval_mults-Folds E es r s g pq k)

  eval_factor-Folds :
      {f : ℕ} (E : Scope) (es : List Complaint) {e : AstFactor} {t : ℕ} {c : Bool} (s : State)
      → HasFactor f E e t c
      → In E es s
      → Folds E es (divides_factor e ≡ true) (c ≡ true) (eval_factor e s)
  eval_factor-Folds E es s (name {id} n) k = name-Folds id s n k
  eval_factor-Folds E es s (integer {n}) k = some-Folds n s refl k
  eval_factor-Folds E es s real k = none-Folds s k
  eval_factor-Folds E es s boolean k = none-Folds s k
  eval_factor-Folds E es s character k = none-Folds s k
  eval_factor-Folds E es s string k = none-Folds s k
  eval_factor-Folds E es s nil k = none-Folds s k
  eval_factor-Folds E es s (set h) k = none-Folds s k
  eval_factor-Folds E es s (parenthesised h) k = eval_expr-Folds E es s h k
  eval_factor-Folds E es s (negation h e) k = none-Folds s k

-- The scope that a state has.
abbrev pub scope_of : State → Scope
scope_of s = record { types = s.types; store = s.store; value = λ x. visible x s.symbols }

pub start-In : (s : State) → IsValid s.symbols → In (scope_of s) s.errors s
start-In s k = record { types = refl; store = refl; values = λ x. refl; valid = k; errors = refl }

-- An expression that the rules type in the scope of a state with valid frames is accepted: its visit
-- returns the type that the rules give, leaves it as the last type and `is_const` as the rules have
-- it, and adds no error and changes no name, symbol or type.
pub visit_expr-At :
    (u : Unicode) (f : ℕ) {e : AstExpr} {t : ℕ} {c : Bool} (s : State)
    → IsValid s.symbols
    → HasExpr f (scope_of s) e t c
    → Gives (some t) (At (scope_of s) s.errors t c) (visit_expr u f e s)
visit_expr-At u f s k h = visit_expr-Gives u f (scope_of s) s.errors s h (start-In s k)

-- The evaluation of an expression that the rules type in the scope of a state with valid frames
-- adds no error and changes no name, symbol or type, and it gives a value only if the rules have the
-- expression as constant. It never divides by zero; it divides the least number by -1, which stops the
-- compiler, only if a DIV or a MOD is among the operators that are evaluated, and ends otherwise.
pub eval_expr-constant :
    {f : ℕ} {e : AstExpr} {t : ℕ} {c : Bool} (s : State)
    → IsValid s.symbols
    → HasExpr f (scope_of s) e t c
    → Folds (scope_of s) s.errors (divides e ≡ true) (c ≡ true) (eval_expr e s)
eval_expr-constant s k h = eval_expr-Folds (scope_of s) s.errors s h (start-In s k)
