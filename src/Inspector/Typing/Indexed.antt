-- ===== src/Inspector/Typing/Indexed.antt =====
-- Indexed variables: `visit(ASTDesignator)` of src/compiler/inspector.cc.
use axcomp.Prelude.{
  ℕ, ◌≡◌, refl, Bool, true, false, List, [], ◌∷◌, Option, none, some, get_elem?, text_eq, Text,
}
use axcomp.Error.{ok}
use axcomp.SymbolTable.Frames.Invariant.{IsValid}
use axcomp.Lexer.Unicode.{Unicode}
use axcomp.Types.{TypeNode, array_of, type_id, id_eq, ordinal, is_array}
use axcomp.TypeTable.{name_of}
use axcomp.TypeTable
use axcomp.TypeTable.Rules.{int_type}
use axcomp.Ast.Expr.{
  AstIdentifier, AstDesignator, simple_expr, no_adds, term, no_mults, integer, designator,
  no_selectors, array_ref, index, no_indices,
}
use axcomp.Inspector.State.{
  State, Complaint, Inspect, ◌>>=◌, pure, done, gets, reading, deref, on_option, complain_if, node,
  get_name, last, last_followed, set_last, set_const, set_lvalue, change,
}
use axcomp.Inspector.State
use axcomp.Inspector.Names.{visit_qualident}
use axcomp.Inspector.Designator.{has_selectors, is_numeric, element, next_node}
use axcomp.Inspector.Expr.{constant, visit_designator, visit_selectors, visit_indices}
use axcomp.Inspector.Typing.{Scope, IsNamed, plain_name}
use axcomp.Inspector.Typing.Gives.{
  Gives, gives, Gives-bind, At, visit_identifier-Gives, last-Gives, node-Gives,
}
use axcomp.Inspector.Typing.Constants.{scope_of, start-In}

-- The variable `id` with the integer `n` in brackets.
abbrev pub indexed : AstIdentifier → ℕ → AstDesignator
indexed id n = designator (plain_name id) (
    array_ref (index (simple_expr none (term (integer n false) no_mults) no_adds) no_indices)
      no_selectors)

-- A type that `next_node` finds again by its name.
pub record IsKnown (f : ℕ) (E : Scope) (t : ℕ) : Type 0 where
  pub type_name : Text
  pub resolved : ℕ
  pub node : TypeNode
  pub named : name_of E.types t ≡ ok type_name
  pub resolves : TypeTable.resolve f E.types type_name ≡ ok (some resolved)
  pub has_node : get_elem? E.types.heap resolved ≡ some node

-- The flags and the type behind a visit.
abbrev pub HasFlags : Bool → Bool → Option ℕ → State → Type 0
HasFlags const lvalue type s = (s.is_const ≡ const) × (s.is_lvalue ≡ lvalue) × (s.last_type ≡ type)

array_of-has_selectors :
    (b : ℕ) (ds : List ℕ)
    → (has_selectors (array_of b ds) ≡ true) × (is_array (array_of b ds) ≡ true)
unfolding has_selectors is_array type_id id_eq ordinal
array_of-has_selectors b ds = (refl, refl)

module _ (u : Unicode) (f : ℕ) {E : Scope} {es : List Complaint} where
  visit_element-Gives :
      (id : AstIdentifier) (n d : ℕ) {t b : ℕ} {c : Bool} (s : State)
      → is_numeric f E.types.heap int_type ≡ ok true
      → IsKnown f E b
      → At E es t c s
      → Gives tt (HasFlags true false (some b)) (
          visit_selectors u f
            (plain_name id)
            (array_of b (d ∷ []))
            (array_ref
              (index (simple_expr none (term (integer n false) no_mults) no_adds) no_indices)
              no_selectors)
            s)
  unfolding visit_selectors visit_indices last_followed last node on_option reading gets deref done
      ◌>>=◌ pure complain_if element next_node get_name State.resolve set_last set_const set_lvalue
      change constant
  visit_element-Gives id n d {b = b} s num known h =
      rw
        (
          (array_of-has_selectors b (d ∷ [])).1,
          h.inside.types,
          num,
          known.named,
          known.resolves,
          known.has_node,
        )
        (gives (refl, refl, refl))

-- In valid frames, where INTEGER is numeric, a variable that is an array of one dimension, of elements
-- of a known type, with an integer in brackets: its visit returns, with the type of the elements, but
-- with `is_const`, and without `is_lvalue`, whether the variable is constant or not.
pub visit_designator-indexed :
    (u : Unicode) (f : ℕ) (id : AstIdentifier) (n : ℕ) {t b d : ℕ} {c : Bool} (s : State)
    → IsValid s.symbols
    → IsNamed f (scope_of s) id.value t c
    → get_elem? s.types.heap t ≡ some (array_of b (d ∷ []))
    → is_numeric f s.types.heap int_type ≡ ok true
    → IsKnown f (scope_of s) b
    → Gives tt (HasFlags true false (some b)) (visit_designator u f (indexed id n) s)
unfolding visit_designator visit_qualident text_eq on_option
visit_designator-indexed u f id n {t} {b} {d} s valid named arr num known =
    Gives-bind _ _ s (visit_identifier-Gives f id.value s named (start-In s valid)) λ r k.
      Gives-bind last _ r (last-Gives r k) λ r k.
        Gives-bind (node t) _ r (node-Gives t r arr k) λ r k.
          rw (array_of-has_selectors b (d ∷ [])).0 (visit_element-Gives u f id n d r num known k)
