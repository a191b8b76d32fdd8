-- ===== src/Inspector/Expr.antt =====
-- Expressions: the visits of `Inspector` from `visit(ASTExpr)` down to `visit(ASTNil)`, and
-- `visit(ASTCall)`, of src/compiler/inspector.cc.
use axcomp.Prelude.{
  ℕ, Bool, true, false, not, ◌&&◌, ◌||◌, List, [], ◌∷◌, Option, none, some, length, if◌then◌else◌,
  ◌==◌, Text, text_eq, codes,
}
use axcomp.Error.{ok, err, invalid_code_point}
use axcomp.Token.{TokenType, tilde}
use axcomp.Lexer.Unicode.{Unicode}
use axcomp.Types.{TypeNode, is_array}
use axcomp.TypeTable.Rules.{
  int_type, bool_type, real_type, char_type, str_type, str1_type, set_type, void_type,
}
use axcomp.Ast.Expr.{
  AstQualident, AstExpr, plain, relation, AstSimpleExpr, simple_expr, Adds, no_adds, add, AstTerm,
  term, Mults, no_mults, mult, AstFactor, designated, integer, real, parenthesised, called, boolean,
  character, string, set, nil, negation, AstDesignator, designator, Selectors, no_selectors,
  array_ref, field_ref, pointer_ref, ArrayRef, no_indices, index, AstCall, call, Exprs, no_exprs,
  argument, Labels, no_labels, labelled, AstLabel, single, range,
}
use axcomp.Printer.Expr.{print_expr, qualident_text}
use axcomp.Inspector.State.{
  on_option, Inspect, ◌>>=◌, ◌>>◌, pure, done, fault, gets, complain, complain_if, node, set_last,
  set_const, set_lvalue, last, operator_types, not_boolean, not_indexable, value_not_indexable,
  cast_arguments, cast_type, cast_value, set_element, argument_count,
}
use axcomp.Inspector.Names.{get_qualident, rewritten, visit_qualident, is_there}
use axcomp.Inspector.Designator.{
  last_numeric, check_type, check_types, has_selectors, is_string, element, select_field,
  select_pointer, next_node,
}
use axcomp.Inspector.Calls.{
  Callee, find_callee, skips, check_reference, check_argument, equivalent, enumeration_named,
  enumeration_typed, finish,
}

-- The text of an expression.
unfoldable pub printed : Unicode → AstExpr → Inspect Text
printed u e s = elim (print_expr u e) [ none ↦ err invalid_code_point | some t ↦ ok (some t, s) ]

-- A literal.
unfoldable pub constant : ℕ → Inspect (Unit {0})
constant t = set_last (some t) >> set_const true >> set_lvalue false

abbrev pub string_type : Text → ℕ
string_type s = if length s == 1 then str1_type else str_type

-- The type of an operator: none after an error.
abbrev pub operated : TokenType → Option ℕ → Inspect (Option ℕ)
operated op none = complain (operator_types op) >> pure none
operated op (some t) = set_last (some t) >> pure (some t)

unfoldable pub operate : ℕ → TokenType → Option ℕ → Inspect (Option ℕ)
operate f op left = do right ← last; result ← check_types f op left right; operated op result

-- `is_const` of both sides.
unfoldable pub both_const : Bool → Inspect Bool
both_const c = do const ← gets λ s. s.is_const; set_const (c && const); pure (c && const)

unfoldable pub negated : Option ℕ → Inspect (Unit {0})
negated none = complain not_boolean
negated (some t) = set_last (some t) >> set_lvalue false

-- The number of arguments, and what the names of compile time functions do with them.
abbrev pub count_args : Exprs → ℕ
count_args no_exprs = 0
count_args (argument e es) = ℕ.suc (count_args es)

abbrev pub only_argument : Exprs → Option AstExpr
only_argument (argument e no_exprs) = some e
only_argument _ = none

unfoldable pub bounded : Unicode → ℕ → Text → Exprs → Inspect (Option ℕ)
bounded u f name es =
    if text_eq name (codes "MIN") || text_eq name (codes "MAX")
    then (on_option (only_argument es) (pure none)
        λ e. printed u e >>= λ text. enumeration_named f text)
    else pure none

unfoldable pub stepped : Text → Option ℕ → Inspect (Option ℕ)
stepped name type =
    if text_eq name (codes "INC") || text_eq name (codes "DEC")
    then enumeration_typed type
    else pure none

-- The rest of the visit where there is no type yet.
infixr 4 ◌otherwise◌
abbrev pub ◌otherwise◌ : Inspect (Option ℕ) → Inspect (Option ℕ) → Inspect (Option ℕ)
m otherwise k = m >>= λ o. on_option o k λ t. pure (some t)

abbrev pub element_checked : Bool → Inspect (Unit {0})
element_checked same = complain_if (not same) set_element

unfoldable pub check_element : ℕ → Bool → Inspect Bool
check_element f c = do
  t ← last
  same ← equivalent f (some int_type) t
  element_checked same
  const ← gets λ s. s.is_const
  pure (c && const)

-- What the selectors are tried on.
abbrev pub no_selector : Selectors → Bool
no_selector no_selectors = true
no_selector _ = false

abbrev pub count_indices : ArrayRef → ℕ
count_indices no_indices = 0
count_indices (index e is) = ℕ.suc (count_indices is)

module _ (u : Unicode) (f : ℕ) where
  unfoldable mutual
    -- The outcome is the type that is noted with the expression, none where it is not.
    pub visit_expr : AstExpr → Inspect (Option ℕ)
    visit_expr (plain e) = visit_simple e >> last
    visit_expr (relation e op d) = do
      visit_simple e
      c ← gets λ s. s.is_const
      set_lvalue false
      left ← last
      visit_simple d
      result ← operate f op left
      on_option result (pure none) λ t. both_const c >> pure (some t)

    pub visit_simple : AstSimpleExpr → Inspect (Unit {0})
    visit_simple (simple_expr sign t rest) = do
      visit_term t
      left ← last
      c ← gets λ s. s.is_const
      visit_adds left c rest

    pub visit_adds : Option ℕ → Bool → Adds → Inspect (Unit {0})
    visit_adds left c no_adds = done
    visit_adds left c (add op t rest) = do
      set_lvalue false
      visit_term t
      result ← operate f op left
      on_option result (done) λ type. both_const c >>= λ c'. visit_adds (some type) c' rest

    pub visit_term : AstTerm → Inspect (Unit {0})
    visit_term (term e rest) = do
      visit_factor e
      left ← last
      c ← gets λ s. s.is_const
      visit_mults left c rest

    pub visit_mults : Option ℕ → Bool → Mults → Inspect (Unit {0})
    visit_mults left c no_mults = done
    visit_mults left c (mult op e rest) = do
      set_lvalue false
      visit_factor e
      result ← operate f op left
      on_option result (done) λ type. both_const c >>= λ c'. visit_mults (some type) c' rest

    pub visit_factor : AstFactor → Inspect (Unit {0})
    visit_factor (designated d) = visit_designator d
    visit_factor (integer n hex) = constant int_type
    visit_factor (real v style) = constant real_type
    visit_factor (parenthesised e) = visit_expr e >> done
    visit_factor (called c) = visit_call c >> set_lvalue false
    visit_factor (boolean b) = constant bool_type
    visit_factor (character n hex) = constant char_type
    visit_factor (string s delim) = constant (string_type s)
    visit_factor (set ls) = do
      c ← visit_labels true ls
      set_const c
      set_last (some set_type)
      set_lvalue false
    visit_factor nil = constant void_type
    visit_factor (negation e) = do visit_factor e; t ← last; negated (check_type tilde t)

    pub visit_labels : Bool → Labels → Inspect Bool
    visit_labels c no_labels = pure c
    visit_labels c (labelled l ls) = visit_label c l >>= λ c'. visit_labels c' ls

    pub visit_label : Bool → AstLabel → Inspect Bool
    visit_label c (single e) = visit_simple e >> check_element f c
    visit_label c (range e d) = do
      visit_simple e
      c' ← check_element f c
      visit_simple d
      check_element f c'

    pub visit_designator : AstDesignator → Inspect (Unit {0})
    visit_designator (designator q sels) = do
      visit_qualident f q
      t ← last
      on_option t (done) λ i. do
        n ← node i
        if has_selectors n
            then visit_selectors q n sels
            else if no_selector sels
            then set_lvalue true
            else complain (not_indexable q.id.value)

    pub visit_selectors : AstQualident → TypeNode → Selectors → Inspect (Unit {0})
    visit_selectors q n no_selectors = done
    visit_selectors q n (array_ref is sels) =
        if is_array n || is_string n
        then (do
          visit_indices is
          element q.id.value (count_indices is) n
          n' ← next_node f
          visit_selectors q n' sels)
        else complain value_not_indexable
    visit_selectors q n (field_ref field sels) = do
      more ← select_field f field.value n
      if more then (next_node f >>= λ n'. visit_selectors q n' sels) else done
    visit_selectors q n (pointer_ref sels) = do
      more ← select_pointer (qualident_text q) n
      if more then (next_node f >>= λ n'. visit_selectors q n' sels) else done

    -- The error of an index that is not numeric is made and not added.
    pub visit_indices : ArrayRef → Inspect (Unit {0})
    visit_indices no_indices = done
    visit_indices (index e is) = visit_simple e >> last_numeric f >> visit_indices is

    pub visit_call : AstCall → Inspect (Unit {0})
    visit_call (call d es) = visit_callee d >>= λ callee. on_option callee done λ c.
        if not (skips c.procedure) && not (count_args es == length c.procedure.params)
        then complain (argument_count c.name)
        else (do
          first ← visit_args c.name (skips c.procedure) c.procedure.params es
          cast ← (if text_eq c.name (codes "CAST") then visit_cast es else pure none)
          type ←
              pure cast
              otherwise bounded u f c.name es
              otherwise stepped c.name first
              otherwise pure c.procedure.ret
          finish c.symbol type)

    pub visit_callee : AstDesignator → Inspect (Option Callee)
    visit_callee (designator q sels) = do
      name ← get_qualident q
      q' ← rewritten q
      find_callee f q' sels name

    -- The outcome is the type of the first argument.
    pub visit_args : Text → Bool → List (ℕ × Bool) → Exprs → Inspect (Option ℕ)
    visit_args name skip ps no_exprs = pure none
    visit_args name skip [] (argument e es) = visit_expr e >> fault
    visit_args name skip ((param, is_var) ∷ ps) (argument e es) = do
      type ← visit_expr e
      if is_var then check_reference name (printed u e) else done
      if skip then done else check_argument f name param
      visit_args name skip ps es
      pure type

    pub visit_cast : Exprs → Inspect (Option ℕ)
    visit_cast no_exprs = complain cast_arguments >> pure none
    visit_cast (argument e no_exprs) = complain cast_arguments >> pure none
    visit_cast (argument e (argument d no_exprs)) = do
      name ← printed u e
      type ← enumeration_named f name
      complain_if (not (is_there type)) (cast_type name)
      visit_expr d
      t ← last
      same ← equivalent f t (some int_type)
      complain_if (not same) cast_value
      pure type
    visit_cast (argument e (argument d (argument _ _))) = complain cast_arguments >> pure none
