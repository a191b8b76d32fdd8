-- ===== src/Parser/Ends.antt =====
-- That the parser ends: src/compiler/parser.cc. The rules for sequences and tests of its steps.
pub mod Tables
pub mod Tokens
pub mod Basic
pub mod Expr
pub mod TypeExpr
pub mod Stmt
pub mod Decl
pub mod Module
pub mod Definition
use axcomp.Prelude.{
  ℕ, zero, suc, ◌+◌, ◌-◌, ◌≤◌, ◌≡◌, refl, ap, sym, subst, ◌∙◌, arith, Bool, true, false, List, [],
  ◌∷◌, Option, none, some, if◌then◌else◌, Text, codes, ◌++◌, ◌≢◌, ◌==◌,
}
use axcomp.Error.{Result, ok, err, out_of_fuel, Ends, returns, throws, Ends-mono}
use axcomp.Token.{TokenType, Token, type_eq, type_name, token_text}
use axcomp.Token
use axcomp.Lexer.Unicode.{IsUnicode}
use axcomp.Lexer.State.{Lexer, available, weight, available-next_token}
use axcomp.Lexer.Tokenize.{pop_or, scan_token, fuel}
use axcomp.Lexer.Tokenize
use axcomp.Lexer.Ends.Token.{peek_token-Shows}
use axcomp.Lexer.Ends.Token as TokenEnds
use axcomp.SymbolTable.Frames
use axcomp.SymbolTable.Store
use axcomp.SymbolTable.Store.{Store}
use axcomp.SymbolTable.Frames.{Frames, with_tables, find_at, put_at}
use axcomp.SymbolTable.Frames.Invariant.{IsValid}
use axcomp.SymbolTable.Frames.Steps.{Runs, put-Runs, find-Runs, Runs-IsValid}
use axcomp.Parser.State.{
  Library, Symbol, State, Parse, run_on, ◌>>=◌, ◌>>◌, pure, throw, fuel_out, lift_result, next,
  peek, push, find, put, get_token, is_type, with_lexer, with_frames, found_frames,
}

-- The frames are as valid as they were, and the stack of frames is the same.
pub record Kept (fr fr' : Frames Symbol) : Type 0 where
  pub valid : IsValid fr → IsValid fr'
  pub stack : fr'.frame_stack ≡ fr.frame_stack

-- A later state, in which `k` tokens are taken.
pub record After (k : ℕ) (s s' : State) : Type 0 where
  pub less : available s'.lexer + k ≤ available s.lexer
  pub kept : Kept s.symbols s'.symbols

pub Kept-refl : (fr : Frames Symbol) → Kept fr fr
Kept-refl fr = record { valid = λ v. v; stack = refl }

pub Kept-same : {fr fr' : Frames Symbol} → fr' ≡ fr → Kept fr fr'
Kept-same e = record { valid = λ v. subst IsValid (sym e) v; stack = ap (λ f. f.frame_stack) e }

pub Kept-trans : {a b c : Frames Symbol} → Kept a b → Kept b c → Kept a c
Kept-trans p q = record { valid = λ v. q.valid (p.valid v); stack = q.stack ∙ p.stack }

pub After-trans : (j k : ℕ) {s s' s'' : State} → After j s s' → After (k - j) s' s'' → After k s s''
After-trans j k p q = record {
  less = let a = p.less in let b = q.less in omega arith;
  kept = Kept-trans p.kept q.kept;
}

-- From a state with at most `n` left to read, the call ends, and a call that returns has taken `k`.
abbrev pub Takes : {A : Type 0} → ℕ → ℕ → Parse A → Type 0
Takes n k p = (s : State) → available s.lexer ≤ n → Ends (λ r. After k s r.1) (p s)

-- The same, where the next token is known.
abbrev pub Sees : {A : Type 0} → Token → ℕ → ℕ → Parse A → Type 0
Sees tok n k p =
    (s : State) (ts : List Token)
    → s.lexer.next_token ≡ tok ∷ ts
    → available s.lexer ≤ n
    → Ends (λ r. After k s r.1) (p s)

-- No call is without fuel.
pub no_fuel : {A : Type 0} (k : ℕ) → 1 ≤ k → k ≤ 0 → A
no_fuel zero h e = elim h [ ]
no_fuel (suc k) h e = elim e [ ]

pub Takes-pure : {A : Type 0} (n : ℕ) (a : A) → Takes n 0 (pure a)
Takes-pure n a s h = returns (record { less = omega arith; kept = Kept-refl s.symbols })

pub Ends-run :
    {A B : Type 0} {P : A × State → Type 0} {Q : B × State → Type 0} {r : Result (A × State)}
    {q : A → Parse B}
    → Ends P r
    → ((a : A) (s : State) → P (a, s) → Ends Q (q a s))
    → Ends Q (run_on r q)
Ends-run (returns {a} h) k = k a.0 a.1 h
Ends-run throws k = throws

-- The rule for a sequence.
pub Takes-bind :
    {A B : Type 0} {p : Parse A} {q : A → Parse B} {n k : ℕ} (j : ℕ)
    → Takes n j p
    → ((a : A) (m : ℕ) → m + j ≤ n → Takes m (k - j) (q a))
    → Takes n k (p >>= q)
Takes-bind {k = k} j h rest s le = Ends-run (h s le) λ a s1 after.
    let less = after.less in
    Ends-mono (rest a (available s1.lexer) (omega arith) s1 (omega arith))
      λ r more. After-trans j k after more

pub Sees-bind :
    {A B : Type 0} {p : Parse A} {q : A → Parse B} {tok : Token} {n k : ℕ} (j : ℕ)
    → Sees tok n j p
    → ((a : A) (m : ℕ) → m + j ≤ n → Takes m (k - j) (q a))
    → Sees tok n k (p >>= q)
Sees-bind {k = k} j h rest s ts e le = Ends-run (h s ts e le) λ a s1 after.
    let less = after.less in
    Ends-mono (rest a (available s1.lexer) (omega arith) s1 (omega arith))
      λ r more. After-trans j k after more

-- Fewer tokens are taken as well.
pub Takes-le : {A : Type 0} {p : Parse A} {n k : ℕ} (j : ℕ) → k ≤ j → Takes n j p → Takes n k p
Takes-le j le h s bound =
    Ends-mono (h s bound)
      λ r after. let less = after.less in record { less = omega arith; kept = after.kept }

pub Takes-throw : {A : Type 0} {n k : ℕ} (msg : Text) → Takes {A = A} n k (throw msg)
Takes-throw msg s h = throws

pub Takes-lift : {A : Type 0} (n : ℕ) (r : Result A) → r ≢ out_of_fuel → Takes n 0 (lift_result r)
Takes-lift n (ok a) e s h = returns (record { less = omega arith; kept = Kept-refl s.symbols })
Takes-lift n (err x) e s h = throws
Takes-lift n out_of_fuel e s h = elim (e refl) [ ]

-- The rules for a conditional: each branch under its test.
pub Takes-if :
    {A : Type 0} {p q : Parse A} {n k : ℕ} (b : Bool)
    → (b ≡ true → Takes n k p)
    → (b ≡ false → Takes n k q)
    → Takes n k (if b then p else q)
Takes-if true hp hq = hp refl
Takes-if false hp hq = hq refl

pub Sees-if :
    {A : Type 0} {p q : Parse A} {tok : Token} {n k : ℕ} (b : Bool)
    → (b ≡ true → Sees tok n k p)
    → (b ≡ false → Sees tok n k q)
    → Sees tok n k (if b then p else q)
Sees-if true hp hq = hp refl
Sees-if false hp hq = hq refl

pub Sees-any : {A : Type 0} {p : Parse A} {tok : Token} {n k : ℕ} → Takes n k p → Sees tok n k p
Sees-any h s ts e le = h s le
