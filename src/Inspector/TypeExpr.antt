-- ===== src/Inspector/TypeExpr.antt =====
-- Types as they are written: the visits of `Inspector` from `visit(ASTType)` down to
-- `visit(ASTEnumeration)` of src/compiler/inspector.cc.
use axcomp.Prelude.{ℕ, ◌+◌, Bool, true, false, not, List, [], ◌∷◌, ◌++◌, Option, none, some, Text}
use axcomp.Error.{ok, err, invalid_code_point}
use axcomp.Lexer.Unicode.{Unicode}
use axcomp.Attr.{cnst}
use axcomp.Types.{TypeNode, RecordNode, enumerated, array_of, open_array_of, record_of, pointer_to}
use axcomp.Types.Records
use axcomp.Ast.Expr.{AstIdentifier, AstQualident, ArrayRef, no_indices, index}
use axcomp.Ast.TypeExpr.{AstType, Fields, no_fields, field}
use axcomp.Printer.Expr.{qualident_text}
use axcomp.Printer.TypeExpr.{print_type}
use axcomp.Inspector.State.{
  on_option, Inspect, State, ◌>>=◌, ◌>>◌, pure, done, gets, change, complain, complain_if, raise,
  reading, find, put, make_symbol, node, new_type, change_type, get_name, find_type, put_type,
  resolve, set_last, last_followed, array_constant, array_numeric, array_integer, base_not_found,
  base_not_record, field_defined, enumeration_defined,
}
use axcomp.Inspector.Names.{visit_qualident}
use axcomp.Inspector.Designator.{last_numeric}
use axcomp.Inspector.Fold.{eval_simple}
use axcomp.Inspector.Expr.{visit_simple}

-- An object that is new becomes the last type, and is put into the table under its name.
unfoldable pub put_last : ℕ → Inspect (Unit {0})
put_last t = do set_last (some t); name ← get_name t; put_type name t

-- `visit(ASTArray)`, where a dimension is a word of 64 bits.
abbrev pub dimension : ℕ → List ℕ → Option ℕ → Inspect (List ℕ)
dimension i ds none = complain (array_integer i) >> pure ds
dimension i ds (some d) = pure (ds ++ d ∷ [])

unfoldable pub visit_dimensions : Unicode → ℕ → ℕ → List ℕ → ArrayRef → Inspect (List ℕ)
visit_dimensions u f i ds no_indices = pure ds
visit_dimensions u f i ds (index e is) = do
  visit_simple u f e
  const ← gets λ s. s.is_const
  complain_if (not const) (array_constant i)
  numeric ← last_numeric f
  complain_if (not numeric) (array_numeric i)
  value ← eval_simple e
  ds' ← dimension i ds value
  visit_dimensions u f (i + 1) ds' is

abbrev pub array_node : ArrayRef → ℕ → List ℕ → TypeNode
array_node no_indices base ds = open_array_of base []
array_node (index e is) base ds = array_of base ds

-- `visit(ASTRecord)`
abbrev pub base_node : Text → ℕ → TypeNode → Inspect (Option ℕ)
base_node name t (record_of r) = pure (some t)
base_node name t other = complain (base_not_record name) >> pure none

unfoldable pub visit_base : ℕ → Option AstQualident → Inspect (Option ℕ)
visit_base f none = pure none
visit_base f (some q) = do
  visit_qualident f q
  base ← resolve f (qualident_text q)
  on_option base (complain (base_not_found (qualident_text q)) >> pure none)
      λ t. node t >>= λ n. base_node (qualident_text q) t n

abbrev pub new_record : Option ℕ → RecordNode
new_record base = record { identified = []; base = base; fields = []; index = [] }

abbrev pub add_field : Text → ℕ → RecordNode → Bool → Inspect RecordNode
add_field name t r true = complain (field_defined name) >> pure r
add_field name t r false = pure (Records.insert name t r)

-- `visit(ASTEnumeration)`, for the object `t`.
abbrev pub add_value : Text → TypeNode → TypeNode
add_value name (enumerated n vs) = enumerated n (vs ++ name ∷ [])
add_value name n = n

abbrev pub visit_value : ℕ → Text → Option ℕ → Inspect (Unit {0})
visit_value t name (some _) = complain (enumeration_defined name)
visit_value t name none = do
  change_type t (add_value name)
  i ← make_symbol (some t) cnst
  put name i

unfoldable pub visit_values : ℕ → List AstIdentifier → Inspect (Unit {0})
visit_values t [] = done
visit_values t (id ∷ ids) = do res ← find id.value; visit_value t id.value res; visit_values t ids

-- `try` and `catch` of `visit(ASTPointerType)`: none where a `TypeError` was caught.
abbrev pub caught : Option (Unit {0}) × State → Option Bool × State
caught (none, s) = (some false, s)
caught (some _, s) = (some true, s)

unfoldable pub attempt : Inspect (Unit {0}) → Inspect Bool
attempt m s = axcomp.Error.◌>>=◌ (m s) λ r. ok (caught r)

-- The text of a type, at the level that `ASTPrinter` starts with.
abbrev pub text_of : Option (Text × ℕ) → Option Text
text_of none = none
text_of (some (t, _)) = some t

unfoldable pub type_text : Unicode → AstType → Inspect Text
type_text u t s = elim (text_of (print_type u 0 t 0)) [
  | none ↦ err invalid_code_point
  | some name ↦ ok (some name, s)
]

unfoldable pub pointer_node : Text → Bool → Inspect TypeNode
pointer_node name false = pure (pointer_to none name)
pointer_node name true = do
  t ← last_followed
  referent ← get_name t
  pure (pointer_to (some t) referent)

unfoldable pub visit_name : Option ℕ → Inspect (Unit {0})
visit_name none = raise
visit_name (some t) = set_last (some t)

module _ (u : Unicode) (f : ℕ) where
  unfoldable mutual
    pub visit_type : AstType → Inspect (Unit {0})
    visit_type (AstType.named q) = find_type q.id.value >>= visit_name
    visit_type (AstType.array dims t) = do
      ds ← visit_dimensions u f 0 [] dims
      visit_type t
      base ← last_followed
      array ← new_type (array_node dims base ds)
      put_last array
    visit_type (AstType.record_type base fs) = do
      b ← visit_base f base
      r ← visit_fields (new_record b) fs
      rec ← new_type (record_of r)
      put_last rec
    visit_type (AstType.pointer_to t) = do
      name ← type_text u t
      known ← attempt (visit_type t)
      n ← pointer_node name known
      pointer ← new_type n
      put_last pointer
      change λ s. record s { pointer_types = s.pointer_types ++ pointer ∷ [] }
    visit_type (AstType.enumeration ids) = do
      t ← new_type (enumerated [] [])
      visit_values t ids
      set_last (some t)

    pub visit_fields : RecordNode → Fields → Inspect RecordNode
    visit_fields r no_fields = pure r
    visit_fields r (field id t rest) = do
      visit_type t
      type ← last_followed
      defined ← reading λ s. Records.has_field f s.types.heap id.value r
      r' ← add_field id.value type r defined
      visit_fields r' rest
