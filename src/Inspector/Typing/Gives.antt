-- ===== src/Inspector/Typing/Gives.antt =====
-- Visits that return, with what holds of the state that they leave: src/compiler/inspector.cc.
use axcomp.Prelude.{
  ℕ, ◌≡◌, refl, sym, ap, ◌∙◌, subst, Bool, true, false, ◌&&◌, List, Option, none, some, get_elem?,
  Text,
}
use axcomp.Error.{Result, ok, err, out_of_fuel}
use axcomp.Error
use axcomp.Token.{TokenType}
use axcomp.SymbolTable.Frames.Invariant.{IsValid}
use axcomp.SymbolTable.Frames.Scoping.{visible, find-visible}
use axcomp.SymbolTable.Frames.Steps.{find-Runs}
use axcomp.Types.Equiv.{equiv}
use axcomp.TypeTable.{check2}
use axcomp.TypeTable.Rules.{int_type, set_type}
use axcomp.Token.{tilde}
use axcomp.Types.{TypeNode}
use axcomp.Importer.{Symbol}
use axcomp.Inspector.Names.{visit_identifier}
use axcomp.Inspector.Designator.{check_type, check_types}
use axcomp.Inspector.Calls.{equivalent}
use axcomp.Inspector.Expr.{constant, operate, both_const, negated, check_element}
use axcomp.Inspector.State.{
  on_option, found_in, complain_if, with_state, State, Complaint, Inspect, go_on, ◌>>=◌, pure, done,
  gets, change, reading, deref, find, symbol, node, get_name, set_last, set_const, set_lvalue, last,
}
use axcomp.Inspector.State
use axcomp.Inspector.Typing.{Scope, IsNamed}

-- The call returns `a`, and leaves a state with `P`.
pub data Gives {A : Type 0} (a : A) (P : State → Type 0) : Result (Option A × State) → Type 0 where
  gives : {s : State} → P s → Gives a P (ok (some a, s))

module _ {A B : Type 0} {a : A} {b : B} {P Q : State → Type 0} where
  go_on-Gives :
      (r : Result (Option A × State)) (k : A → Inspect B)
      → Gives a P r
      → ((t : State) → P t → Gives b Q (k a t))
      → Gives b Q (Error.◌>>=◌ r (go_on k))
  go_on-Gives (ok (some a, t)) k (gives h) g = g t h
  go_on-Gives (ok (none, t)) k h g = elim h [ ]
  go_on-Gives (err e) k h g = elim h [ ]
  go_on-Gives out_of_fuel k h g = elim h [ ]

  pub Gives-bind :
      (m : Inspect A) (k : A → Inspect B) (s : State)
      → Gives a P (m s)
      → ((t : State) → P t → Gives b Q (k a t))
      → Gives b Q ((m >>= k) s)
  unfolding ◌>>=◌
  Gives-bind m k s h g = go_on-Gives (m s) k h g

-- The state has the scope `E` and the errors `es`.
pub record In (E : Scope) (es : List Complaint) (s : State) : Type 0 where
  pub types : s.types ≡ E.types
  pub store : s.store ≡ E.store
  pub values : (x : Text) → visible x s.symbols ≡ E.value x
  pub valid : IsValid s.symbols
  pub errors : s.errors ≡ es

-- The state after an expression of the type `t`.
pub record At (E : Scope) (es : List Complaint) (t : ℕ) (c : Bool) (s : State) : Type 0 where
  pub inside : In E es s
  pub last_type : s.last_type ≡ some t
  pub is_const : s.is_const ≡ c

module _ {E : Scope} {es : List Complaint} where
  -- A state that differs in the last type and in the flags.
  same-In :
      (s t : State)
      → In E es s
      → t.types ≡ E.types
      → t.store ≡ E.store
      → t.symbols ≡ s.symbols
      → t.errors ≡ s.errors
      → In E es t
  same-In s t h types store symbols errors = record {
    types = types;
    store = store;
    values = λ x. ap (visible x) symbols ∙ h.values x;
    valid = subst IsValid (sym symbols) h.valid;
    errors = errors ∙ h.errors;
  }

  pub find-Gives :
      (name : Text) (s : State) → In E es s → Gives (E.value name) (In E es) (find name s)
  unfolding find
  find-Gives name s h =
      let r = find-Runs name s.symbols h.valid in
      let (fr, runs, values) = find-visible name s.symbols h.valid in
      let same : r.result ≡ (visible name s.symbols, fr) = cc r.runs in
      let valid : IsValid fr = subst (λ o. IsValid o.1) same r.valid in
      let after : In E es (record s { symbols = fr }) = record {
        types = h.types;
        store = h.store;
        values = λ x. values x ∙ h.values x;
        valid = valid;
        errors = h.errors;
      } in
      rw (runs, h.values name) (gives after)

  pub visit_identifier-Gives :
      (f : ℕ) (name : Text) {t : ℕ} {c : Bool} (s : State)
      → IsNamed f E name t c
      → In E es s
      → Gives tt (At E es t c) (visit_identifier f name s)
  unfolding visit_identifier on_option symbol get_name State.resolve reading gets deref ◌>>=◌
      set_last set_const set_lvalue change pure
  visit_identifier-Gives f name s n h = Gives-bind (find name) _ s (find-Gives name s h) λ t k.
      rw (n.stands, k.store, k.types, n.there, n.typed, n.named, n.resolved, n.constant)
        (gives (record {
          inside = same-In t _ k refl refl refl refl;
          last_type = refl;
          is_const = refl;
        }))

  pub constant-Gives : (t : ℕ) (s : State) → In E es s → Gives tt (At E es t true) (constant t s)
  unfolding constant set_last set_const set_lvalue change ◌>>=◌
  constant-Gives t s h = gives (record {
    inside = same-In s _ h h.types h.store refl refl;
    last_type = refl;
    is_const = refl;
  })

  -- The operator is applied to the operands' types; the flag of the first operand is `b`.
  pub operate-Gives :
      (f : ℕ) (op : TokenType) (l : ℕ) {r t : ℕ} {c : Bool} (s : State)
      → check2 f E.types op l r ≡ ok (some t)
      → At E es r c s
      → Gives (some t) (At E es t c) (operate f op (some l) s)
  unfolding operate check_types last reading gets deref ◌>>=◌ set_last change pure
  operate-Gives f op l s e h =
      rw (h.last_type, h.inside.types, e)
        (gives (record {
          inside = same-In s _ h.inside refl h.inside.store refl refl;
          last_type = refl;
          is_const = h.is_const;
        }))

  pub both_const-Gives :
      (b : Bool) {t : ℕ} {c : Bool} (s : State)
      → At E es t c s
      → Gives (b && c) (At E es t (b && c)) (both_const b s)
  unfolding both_const set_const gets ◌>>=◌ change pure
  both_const-Gives b s h = rw h.is_const (
      gives (record {
        inside = same-In s _ h.inside h.inside.types h.inside.store refl refl;
        last_type = h.last_type;
        is_const = refl;
      }))

  pub set_lvalue-Gives :
      (l : Bool) {t : ℕ} {c : Bool} (s : State)
      → At E es t c s
      → Gives tt (At E es t c) (set_lvalue l s)
  unfolding set_lvalue change
  set_lvalue-Gives l s h = gives (record {
    inside = same-In s _ h.inside h.inside.types h.inside.store refl refl;
    last_type = h.last_type;
    is_const = h.is_const;
  })

  pub negated-Gives :
      {t m : ℕ} {c : Bool} (s : State)
      → check_type tilde (some t) ≡ some m
      → At E es t c s
      → Gives tt (At E es m c) (negated (check_type tilde (some t)) s)
  unfolding negated set_last set_lvalue change ◌>>=◌
  negated-Gives s e h = rw e (
      gives (record {
        inside = same-In s _ h.inside h.inside.types h.inside.store refl refl;
        last_type = refl;
        is_const = h.is_const;
      }))

  pub last-Gives :
      {t : ℕ} {c : Bool} (s : State) → At E es t c s → Gives (some t) (At E es t c) (last s)
  unfolding last gets
  last-Gives s h = rw h.last_type (
      gives (record {
        inside = same-In s _ h.inside h.inside.types h.inside.store refl refl;
        last_type = refl;
        is_const = h.is_const;
      }))

  pub is_const-Gives :
      {t : ℕ} {c : Bool} (s : State)
      → At E es t c s
      → Gives c (At E es t c) (gets (λ s. s.is_const) s)
  unfolding gets
  is_const-Gives s h = rw h.is_const (
      gives (record {
        inside = same-In s _ h.inside h.inside.types h.inside.store refl refl;
        last_type = h.last_type;
        is_const = refl;
      }))

  pub check_element-Gives :
      (f : ℕ) (a : Bool) {t : ℕ} {c : Bool} (s : State)
      → equiv f E.types.heap int_type t ≡ ok true
      → At E es t c s
      → Gives (a && c) (At E es t c) (check_element f a s)
  unfolding check_element equivalent reading complain_if last gets deref done ◌>>=◌ pure
  check_element-Gives f a s e h =
      rw (h.last_type, h.inside.types, e, h.is_const)
        (gives (record {
          inside = same-In s _ h.inside refl h.inside.store refl refl;
          last_type = refl;
          is_const = refl;
        }))

  pub symbol-Gives :
      (i : ℕ) {v : Symbol} (s : State)
      → get_elem? E.store i ≡ some v
      → In E es s
      → Gives v (In E es) (symbol i s)
  unfolding symbol gets deref ◌>>=◌ pure
  symbol-Gives i s e h = rw (h.store, e) (gives (same-In s _ h h.types refl refl refl))

  pub node-Gives :
      (i : ℕ) {t : ℕ} {c : Bool} {n : TypeNode} (s : State)
      → get_elem? E.types.heap i ≡ some n
      → At E es t c s
      → Gives n (At E es t c) (node i s)
  unfolding node gets deref ◌>>=◌ pure
  node-Gives i s e h =
      rw (h.inside.types, e)
        (gives (record {
          inside = same-In s _ h.inside refl h.inside.store refl refl;
          last_type = h.last_type;
          is_const = h.is_const;
        }))

  -- The type and the flags behind a set.
  pub set-Gives :
      (c : Bool) (s : State)
      → In E es s
      → Gives tt
          (At E es set_type c)
          ((set_const c >>= λ _. set_last (some set_type) >>= λ _. set_lvalue false) s)
  unfolding set_last set_const set_lvalue change ◌>>=◌
  set-Gives c s h = gives (record {
    inside = same-In s _ h h.types h.store refl refl;
    last_type = refl;
    is_const = refl;
  })

module _ {P : State → Type 0} where
  pub pure-Gives : {A : Type 0} (a : A) (s : State) → P s → Gives a P (pure a s)
  unfolding pure
  pure-Gives a s h = gives h

  pub done-Gives : (s : State) → P s → Gives tt P (done s)
  unfolding done
  done-Gives s h = gives h
