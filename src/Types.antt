-- ===== src/Types.antt =====
-- The types of the language: src/compiler/types/. A `Type` is a shared pointer: here an index into
-- the heap of all type objects, so that types can be recursive and are compared by identity.
pub mod Equiv
pub mod Records
pub mod Names
pub mod Enums
use axcomp.Prelude.{
  ℕ, Bool, true, false, not, ◌||◌, List, [], ◌∷◌, Option, none, some, get_elem?, Text, ◌==◌,
}

-- `enum class TypeId`
pub data TypeId : Type 0 where
  void any integer real boolean enumeration char procedure procedure_fwd array : TypeId
  open_array string str1 set record_id alias pointer module_id : TypeId

unfoldable pub ordinal : TypeId → ℕ
ordinal void = 0
ordinal any = 1
ordinal integer = 2
ordinal real = 3
ordinal boolean = 4
ordinal enumeration = 5
ordinal char = 6
ordinal procedure = 7
ordinal procedure_fwd = 8
ordinal array = 9
ordinal open_array = 10
ordinal string = 11
ordinal str1 = 12
ordinal set = 13
ordinal record_id = 14
ordinal alias = 15
ordinal pointer = 16
ordinal module_id = 17

unfoldable pub id_eq : TypeId → TypeId → Bool
unfolding ordinal
id_eq a b = ordinal a == ordinal b

-- `RecordType`: `fields` is the map by name, `index` the names in the order of insertion.
pub record RecordNode : Type 0 where
  pub identified : Text
  pub base : Option ℕ
  pub fields : List (Text × ℕ)
  pub index : List Text

-- `ProcedureType`: a parameter with the flag of `VAR`.
pub record ProcedureNode : Type 0 where
  pub ret : Option ℕ
  pub receiver : Option ℕ
  pub params : List (ℕ × Bool)

-- The objects below `Type_`. `simple` stands for `SimpleType` and the classes below it other than
-- `EnumType`, with the `id` that the object has.
pub data TypeNode : Type 0 where
  simple : TypeId → Text → TypeNode
  enumerated : Text → List Text → TypeNode
  array_of : ℕ → List ℕ → TypeNode
  open_array_of : ℕ → List ℕ → TypeNode
  record_of : RecordNode → TypeNode
  pointer_to : Option ℕ → Text → TypeNode
  procedure_of : ProcedureNode → TypeNode
  forward_of : ProcedureNode → TypeNode
  alias_of : Text → ℕ → TypeNode
  module_of : Text → TypeNode

abbrev pub Heap : Type 0
Heap = List TypeNode

-- The field `id`.
unfoldable pub type_id : TypeNode → TypeId
type_id (simple i n) = i
type_id (enumerated n vs) = enumeration
type_id (array_of b ds) = array
type_id (open_array_of b ds) = open_array
type_id (record_of r) = record_id
type_id (pointer_to r n) = pointer
type_id (procedure_of p) = procedure
type_id (forward_of p) = procedure_fwd
type_id (alias_of n t) = alias
type_id (module_of n) = module_id

-- `is_array` and `is_referencable`
unfoldable pub is_array : TypeNode → Bool
unfolding type_id
is_array t = id_eq (type_id t) array || id_eq (type_id t) open_array

unfoldable pub is_referencable : TypeNode → Bool
unfolding type_id
is_referencable t =
    not (id_eq (type_id t) procedure || id_eq (type_id t) alias || id_eq (type_id t) module_id)
