-- ===== src/Inspector/Designator.antt =====
-- The types behind a designator: the parts of `visit(ASTDesignator)` of src/compiler/inspector.cc
-- that read types only, with `update_designator_state`.
use axcomp.Prelude.{
  ℕ, Bool, true, false, not, ◌||◌, List, [], ◌∷◌, Option, none, some, get_elem?, length, ◌==◌, Text,
}
use axcomp.Error.{Result, ok, err, null_pointer}
use axcomp.Token.{TokenType}
use axcomp.Types.{
  TypeId, TypeNode, Heap, RecordNode, type_id, id_eq, is_array, array_of, open_array_of, record_of,
  pointer_to, simple, alias_of,
}
use axcomp.Types.Records
use axcomp.TypeTable.{check1, check2}
use axcomp.TypeTable.Rules.{rules1, char_type}
use axcomp.Inspector.State.{
  Inspect, ◌>>=◌, ◌>>◌, pure, reading, complain, complain_if, deref, node, get_name, resolve,
  set_last, last_followed, no_field, not_pointer, index_count, value_not_record,
}

-- `is_numeric`: `IntegerType` is the one class that has it, and an alias has it of its type. A call
-- takes a unit of fuel for each alias.
abbrev pub numeric_node : (ℕ → Result Bool) → Option TypeNode → Result Bool
numeric_node numeric none = err null_pointer
numeric_node numeric (some (alias_of n t)) = numeric t
numeric_node numeric (some (simple i n)) = ok (id_eq i TypeId.integer)
numeric_node numeric (some _) = ok false

unfoldable pub is_numeric : ℕ → Heap → ℕ → Result Bool
is_numeric ℕ.zero h t = Result.out_of_fuel
is_numeric (ℕ.suc f) h t = numeric_node (is_numeric f h) (get_elem? h t)

-- Whether the type of the last expression is numeric.
abbrev pub last_numeric : ℕ → Inspect Bool
last_numeric f = do t ← last_followed; reading λ s. is_numeric f s.types.heap t

-- `types.check` of one type and of two.
unfoldable pub check_type : TokenType → Option ℕ → Option ℕ
check_type op none = none
check_type op (some i) = check1 op i rules1

unfoldable pub check_types : ℕ → TokenType → Option ℕ → Option ℕ → Inspect (Option ℕ)
check_types f op l r = do i ← deref l; j ← deref r; reading λ s. check2 f s.types op i j

-- `update_designator_state`, as what the object of a type says of it.
abbrev pub is_record : TypeNode → Bool
is_record n = id_eq (type_id n) TypeId.record_id

abbrev pub is_string : TypeNode → Bool
is_string n = id_eq (type_id n) TypeId.string

abbrev pub is_pointer : TypeNode → Bool
is_pointer n = id_eq (type_id n) TypeId.pointer

unfoldable pub has_selectors : TypeNode → Bool
unfolding type_id is_array
has_selectors n = is_array n || is_record n || is_string n || is_pointer n

-- The type of an element, by the number of indexes.
abbrev pub dimensions_fit : List ℕ → ℕ → Bool
dimensions_fit [] n = true
dimensions_fit (d ∷ ds) n = length (d ∷ ds) == n

unfoldable pub element : Text → ℕ → TypeNode → Inspect (Unit {0})
element name n (array_of b ds) =
    complain_if (not (dimensions_fit ds n)) (index_count name) >> set_last (some b)
element name n (open_array_of b ds) =
    complain_if (not (dimensions_fit ds n)) (index_count name) >> set_last (some b)
element name n other = set_last (some char_type)

-- The record that a field is looked up in: none where the value is none.
abbrev pub record_at : TypeNode → Option RecordNode
record_at (record_of r) = some r
record_at _ = none

unfoldable pub record_behind : TypeNode → Inspect (Option RecordNode)
record_behind (record_of r) = pure (some r)
record_behind (pointer_to r n) = do t ← deref r; referent ← node t; pure (record_at referent)
record_behind _ = pure none

-- A selector changes the type of the last expression, and says whether the loop goes on.
abbrev pub field_found : Text → Option ℕ → Inspect Bool
field_found name none = complain (no_field name) >> pure false
field_found name (some t) = set_last (some t) >> pure true

abbrev pub field_of : ℕ → Text → Option RecordNode → Inspect Bool
field_of f name none = do _ ← last_followed; complain value_not_record; pure false
field_of f name (some r) = do
  t ← reading λ s. Records.get_type f s.types.heap name r
  field_found name t

unfoldable pub select_field : ℕ → Text → TypeNode → Inspect Bool
select_field f name n = do r ← record_behind n; field_of f name r

unfoldable pub select_pointer : Text → TypeNode → Inspect Bool
select_pointer name (pointer_to r n) = do t ← deref r; set_last (some t); pure true
select_pointer name other = complain (not_pointer name) >> pure false

-- The type that the next selector is for.
unfoldable pub next_node : ℕ → Inspect TypeNode
next_node f = do t ← last_followed; name ← get_name t; type ← resolve f name; i ← deref type; node i
