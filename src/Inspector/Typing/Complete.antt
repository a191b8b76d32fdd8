-- ===== src/Inspector/Typing/Complete.antt =====
-- The visits of expressions accept what the rules type: src/compiler/inspector.cc.
use axcomp.Prelude.{ℕ, Bool, true, false, ◌&&◌, List, some, text_eq, Bool-cases, inl, inr}
use axcomp.Lexer.Unicode.{Unicode}
use axcomp.Ast.Expr.{
  AstIdentifier, AstExpr, AstSimpleExpr, Adds, AstTerm, Mults, AstFactor, Labels, designator,
  no_selectors,
}
use axcomp.Inspector.State.{State, Complaint, node, on_option, last}
use axcomp.Inspector.Names.{visit_qualident}
use axcomp.Inspector.Designator.{has_selectors}
use axcomp.Inspector.Expr.{
  operate, both_const, visit_expr, visit_simple, visit_adds, visit_term, visit_mults, visit_factor,
  visit_labels, visit_designator,
}
use axcomp.Inspector.Typing.{
  Scope, IsNamed, plain_name, HasExpr, plain, relation, HasSimple, simple_expr, HasAdds, no_adds,
  add, HasTerm, term, HasMults, no_mults, mult, HasFactor, name, integer, real, boolean, character,
  string, nil, set, parenthesised, negation, HasLabels, no_labels, single, range,
}
use axcomp.Inspector.Typing.Gives.{
  Gives, Gives-bind, In, At, visit_identifier-Gives, constant-Gives, operate-Gives,
  both_const-Gives, set_lvalue-Gives, negated-Gives, last-Gives, is_const-Gives,
  check_element-Gives, node-Gives, done-Gives, pure-Gives, set-Gives,
}

module _ {f : ℕ} {E : Scope} {es : List Complaint} where
  visit_name-Gives :
      (u : Unicode) (id : AstIdentifier) {t : ℕ} {c : Bool} (s : State)
      → IsNamed f E id.value t c
      → In E es s
      → Gives tt (At E es t c) (visit_designator u f (designator (plain_name id) no_selectors) s)
  unfolding visit_designator visit_qualident text_eq on_option
  visit_name-Gives u id {t} s n h =
      Gives-bind _ _ s (visit_identifier-Gives f id.value s n h) λ r k.
        Gives-bind last _ r (last-Gives r k) λ r k.
          Gives-bind (node t) _ r (node-Gives t r n.has_node k) λ r k.
            elim (Bool-cases (has_selectors n.node)) [
              | inl selects ↦ rw selects (done-Gives r k)
              | inr other ↦ rw other (set_lvalue-Gives true r k)
            ]

mutual
  unfolding visit_expr on_option

  pub visit_expr-Gives :
      (u : Unicode) (f : ℕ) (E : Scope) (es : List Complaint) {e : AstExpr} {t : ℕ} {c : Bool}
      (s : State)
      → HasExpr f E e t c
      → In E es s
      → Gives (some t) (At E es t c) (visit_expr u f e s)
  visit_expr-Gives u f E es s (plain h) k =
      Gives-bind _ _ s (visit_simple-Gives u f E es s h k) last-Gives
  visit_expr-Gives u f E es s (relation {op} {l} {b} h g e) k =
      Gives-bind _ _ s (visit_simple-Gives u f E es s h k) λ s k.
        Gives-bind _ _ s (is_const-Gives s k) λ s k.
          Gives-bind _ _ s (set_lvalue-Gives false s k) λ s k.
            Gives-bind last _ s (last-Gives s k) λ s k.
              Gives-bind _ _ s (visit_simple-Gives u f E es s g k.inside) λ s k.
                Gives-bind (operate f op (some l)) _ s (operate-Gives f op l s e k) λ s k.
                  Gives-bind (both_const b) _ s (both_const-Gives b s k) λ s k. pure-Gives _ s k

  visit_simple-Gives :
      (u : Unicode) (f : ℕ) (E : Scope) (es : List Complaint) {e : AstSimpleExpr} {t : ℕ} {c : Bool}
      (s : State)
      → HasSimple f E e t c
      → In E es s
      → Gives tt (At E es t c) (visit_simple u f e s)
  visit_simple-Gives u f E es s (simple_expr h g) k =
      Gives-bind _ _ s (visit_term-Gives u f E es s h k) λ s k.
        Gives-bind last _ s (last-Gives s k)
          λ s k. Gives-bind _ _ s (is_const-Gives s k) λ s k. visit_adds-Gives u f E es s g k

  visit_adds-Gives :
      (u : Unicode) (f : ℕ) (E : Scope) (es : List Complaint) {rest : Adds} {l t : ℕ} {b c : Bool}
      (s : State)
      → HasAdds f E l b rest t c
      → At E es l b s
      → Gives tt (At E es t c) (visit_adds u f (some l) b rest s)
  visit_adds-Gives u f E es s no_adds k = done-Gives s k
  visit_adds-Gives u f E es {l = l} {b = b} s (add {op} h e g) k =
      Gives-bind _ _ s (set_lvalue-Gives false s k) λ s k.
        Gives-bind _ _ s (visit_term-Gives u f E es s h k.inside) λ s k.
          Gives-bind (operate f op (some l)) _ s (operate-Gives f op l s e k) λ s k.
            Gives-bind (both_const b) _ s (both_const-Gives b s k)
              λ s k. visit_adds-Gives u f E es s g k

  visit_term-Gives :
      (u : Unicode) (f : ℕ) (E : Scope) (es : List Complaint) {e : AstTerm} {t : ℕ} {c : Bool}
      (s : State)
      → HasTerm f E e t c
      → In E es s
      → Gives tt (At E es t c) (visit_term u f e s)
  visit_term-Gives u f E es s (term h g) k =
      Gives-bind _ _ s (visit_factor-Gives u f E es s h k) λ s k.
        Gives-bind last _ s (last-Gives s k)
          λ s k. Gives-bind _ _ s (is_const-Gives s k) λ s k. visit_mults-Gives u f E es s g k

  visit_mults-Gives :
      (u : Unicode) (f : ℕ) (E : Scope) (es : List Complaint) {rest : Mults} {l t : ℕ} {b c : Bool}
      (s : State)
      → HasMults f E l b rest t c
      → At E es l b s
      → Gives tt (At E es t c) (visit_mults u f (some l) b rest s)
  visit_mults-Gives u f E es s no_mults k = done-Gives s k
  visit_mults-Gives u f E es {l = l} {b = b} s (mult {op} h e g) k =
      Gives-bind _ _ s (set_lvalue-Gives false s k) λ s k.
        Gives-bind _ _ s (visit_factor-Gives u f E es s h k.inside) λ s k.
          Gives-bind (operate f op (some l)) _ s (operate-Gives f op l s e k) λ s k.
            Gives-bind (both_const b) _ s (both_const-Gives b s k)
              λ s k. visit_mults-Gives u f E es s g k

  visit_factor-Gives :
      (u : Unicode) (f : ℕ) (E : Scope) (es : List Complaint) {e : AstFactor} {t : ℕ} {c : Bool}
      (s : State)
      → HasFactor f E e t c
      → In E es s
      → Gives tt (At E es t c) (visit_factor u f e s)
  visit_factor-Gives u f E es s (name {id} n) k = visit_name-Gives u id s n k
  visit_factor-Gives u f E es s integer k = constant-Gives _ s k
  visit_factor-Gives u f E es s real k = constant-Gives _ s k
  visit_factor-Gives u f E es s boolean k = constant-Gives _ s k
  visit_factor-Gives u f E es s character k = constant-Gives _ s k
  visit_factor-Gives u f E es s string k = constant-Gives _ s k
  visit_factor-Gives u f E es s nil k = constant-Gives _ s k
  visit_factor-Gives u f E es s (set {c} h) k =
      Gives-bind _ _ s (visit_labels-Gives u f E es s h k) λ s k. set-Gives c s k
  visit_factor-Gives u f E es s (parenthesised h) k =
      Gives-bind _ _ s (visit_expr-Gives u f E es s h k) λ s k. done-Gives s k
  visit_factor-Gives u f E es s (negation h e) k =
      Gives-bind _ _ s (visit_factor-Gives u f E es s h k)
        λ s k. Gives-bind last _ s (last-Gives s k) λ s k. negated-Gives s e k

  visit_labels-Gives :
      (u : Unicode) (f : ℕ) (E : Scope) (es : List Complaint) {ls : Labels} {a c : Bool} (s : State)
      → HasLabels f E a ls c
      → In E es s
      → Gives c (In E es) (visit_labels u f a ls s)
  visit_labels-Gives u f E es s no_labels k = pure-Gives _ s k
  visit_labels-Gives u f E es {a = a} s (single {b} h e g) k =
      Gives-bind _ _ s
        (Gives-bind _ _ s (visit_simple-Gives u f E es s h k) λ s k. check_element-Gives f a s e k)
        λ s k. visit_labels-Gives u f E es s g k.inside
  visit_labels-Gives u f E es {a = a} s (range {b} {b'} h e g e' r) k =
      Gives-bind _ _ s
        (Gives-bind _ _ s (visit_simple-Gives u f E es s h k) λ s k.
          Gives-bind _ _ s (check_element-Gives f a s e k) λ s k.
            Gives-bind _ _ s (visit_simple-Gives u f E es s g k.inside)
              λ s k. check_element-Gives f (a && b) s e' k)
        λ s k. visit_labels-Gives u f E es s r k.inside
