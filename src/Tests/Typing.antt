-- ===== src/Tests/Typing.antt =====
-- The types at concrete heaps: src/compiler/types/.
use axcomp.Prelude.{
  ℕ, ◌+◌, ◌<◌, ◌≡◌, ◌⊎◌, refl, arith, List, [], ◌∷◌, Text, codes, Option, some, none, get_elem?,
  true, false,
}
use axcomp.Error.{ok, out_of_fuel, ◌>>=◌}
use axcomp.Types.{TypeId, Heap, RecordNode, simple, record_of, pointer_to, ordinal, type_id, id_eq}
use axcomp.Types.Equiv.{equiv, equiv_nodes, same_id_equiv, record_equiv, fields_equiv}
use axcomp.Types.Equiv.Loops.{equiv-plain_pointer, equiv-self_pointer, equiv-extension}
use axcomp.Types.Records.{has_field, get_type, get_index, get_field_types, position, count}
use axcomp.Types.Enums.{get_ordinal, add_values, no_values, get_ordinal-add_values}
use axcomp.Types.Records.Index.{found, has_field-get_type, get_index-one_base, get_index-two_bases}

-- At 1 a record with a pointer to itself, at 2 that pointer, at 3 and 4 pointers to INTEGER, and to
-- the record.
abbrev node : RecordNode
node = record {
  identified = [];
  base = none;
  fields = (codes "next", 2) ∷ [];
  index = codes "next" ∷ [];
}

abbrev list_types : Heap
list_types =
    simple TypeId.integer (codes "INTEGER")
    ∷ record_of node
    ∷ pointer_to (some 1) (codes "Node")
    ∷ pointer_to (some 0) (codes "INTEGER")
    ∷ pointer_to (some 1) (codes "Node")
    ∷ []

-- A pointer to INTEGER takes a pointer to the record, and the other way round.
equiv-plain_pointer_example : equiv 2 list_types 3 4 ≡ ok true
unfolding type_id ordinal id_eq
equiv-plain_pointer_example =
    equiv-plain_pointer 0 list_types 3 4 0 (simple TypeId.integer (codes "INTEGER")) refl refl refl
      refl refl

equiv-self_pointer_example :
    (equiv 100 list_types 2 2 ≡ out_of_fuel) × (equiv 100 list_types 1 1 ≡ out_of_fuel)
equiv-self_pointer_example =
    equiv-self_pointer list_types 1 2 (codes "next") (codes "Node") [] 100 refl refl

-- Records that extend each other: `root` at 1, `middle` at 2, `leaf` at 3, pointers to the first two
-- at 4 and 5.
abbrev extended : Option ℕ → Text → RecordNode
extended base name = record {
  identified = [];
  base = base;
  fields = (name, 0) ∷ [];
  index = name ∷ [];
}

abbrev root : RecordNode
root = extended none (codes "a")

abbrev middle : RecordNode
middle = extended (some 1) (codes "b")

abbrev leaf : RecordNode
leaf = extended (some 2) (codes "c")

abbrev shapes : Heap
shapes =
    simple TypeId.integer (codes "INTEGER")
    ∷ record_of root
    ∷ record_of middle
    ∷ record_of leaf
    ∷ pointer_to (some 1) (codes "Root")
    ∷ pointer_to (some 2) (codes "Middle")
    ∷ []

equiv-extension_example : (equiv 3 shapes 4 5 ≡ ok false) × (equiv 3 shapes 5 4 ≡ ok true)
unfolding equiv equiv_nodes same_id_equiv record_equiv fields_equiv type_id ordinal id_eq
    axcomp.SymbolTable.Map.lookup axcomp.Prelude.text_eq
equiv-extension_example =
    equiv-extension 2 shapes 4 5 1 2 root middle refl refl refl refl refl refl refl

has_field-get_type_example :
    has_field 3 shapes (codes "a") leaf ≡ (get_type 3 shapes (codes "a") leaf >>= λ t. ok (found t))
has_field-get_type_example = has_field-get_type 3 shapes (codes "a") leaf

get_index-one_base_example :
    ((slots : List (Option Text)) × (n : ℕ) × (get_field_types 2 shapes middle ≡ ok slots)
      × (get_index 2 shapes (codes "b") middle ≡ ok (some n))
      × (get_elem? slots n ≡ some (some (codes "b"))))
    ⊎ ((get_index 2 shapes (codes "b") middle ≡ ok none)
        × (position (codes "b") root.index ≡ none)
        × (position (codes "b") middle.index ≡ none))
get_index-one_base_example =
    get_index-one_base 0 shapes (codes "b") middle root 1 refl refl refl (omega arith)

get_index-two_bases_example :
    (slots : List (Option Text)) × (get_field_types 3 shapes leaf ≡ ok slots)
    × (get_elem? slots (count root + count middle + 0) ≡ some (some (codes "c")))
    × (get_index 3 shapes (codes "c") leaf ≡ ok (some (count middle + 0)))
    × (count middle + 0 < count root + count middle + 0)
unfolding position axcomp.Prelude.text_eq
get_index-two_bases_example =
    get_index-two_bases 0 shapes (codes "c") leaf middle root 2 1 0 refl refl refl refl refl
      (omega arith) refl refl refl

abbrev colours : List Text
colours = codes "red" ∷ codes "green" ∷ codes "red" ∷ []

get_ordinal-add_values_example :
    get_ordinal (codes "green") (add_values colours no_values) ≡ position (codes "green") colours
get_ordinal-add_values_example = get_ordinal-add_values colours (codes "green")
