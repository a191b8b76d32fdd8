-- ===== src/Types/Records.antt =====
-- `RecordType` of src/compiler/types/type_record.cc: fields of records that extend records. A call
-- takes a unit of fuel for each record on the way to the root.
pub mod Index
use axcomp.Prelude.{
  ℕ, zero, suc, ◌+◌, Bool, true, false, List, [], ◌∷◌, ◌++◌, Option, none, some, get_elem?, length,
  if◌then◌else◌, Text, text_eq,
}
use axcomp.Error.{Result, ok, err, out_of_fuel, null_pointer, ◌>>=◌}
use axcomp.SymbolTable.Map.{lookup}
use axcomp.SymbolTable.Map
use axcomp.Types.{TypeNode, Heap, RecordNode, record_of}

-- `insert`
unfoldable pub insert : Text → ℕ → RecordNode → RecordNode
insert field type r = record r {
  fields = Map.insert field type r.fields;
  index = r.index ++ field ∷ [];
}

-- `count`
abbrev pub count : RecordNode → ℕ
count r = length r.index

-- The object of the member `base`, which is a record.
abbrev pub at_record {ℓ} : {A : Type ℓ} → (RecordNode → Result A) → Option TypeNode → Result A
at_record f (some (record_of r)) = f r
at_record f _ = err null_pointer

abbrev pub at_base {ℓ} :
    {A : Type ℓ} → Heap → Result A → (RecordNode → Result A) → Option ℕ → Result A
at_base h here f none = here
at_base h here f (some b) = at_record f (get_elem? h b)

-- `has_field`
abbrev pub has_or : Option ℕ → Result Bool → Result Bool
has_or (some _) base = ok true
has_or none base = base

unfoldable pub has_field : ℕ → Heap → Text → RecordNode → Result Bool
has_field zero h field r = out_of_fuel
has_field (suc f) h field r =
    has_or (lookup field r.fields) (at_base h (ok false) (λ b. has_field f h field b) r.base)

-- `get_type`
abbrev pub type_or : Option ℕ → Result (Option ℕ) → Result (Option ℕ)
type_or (some t) base = ok (some t)
type_or none base = base

unfoldable pub get_type : ℕ → Heap → Text → RecordNode → Result (Option ℕ)
get_type zero h field r = out_of_fuel
get_type (suc f) h field r =
    type_or (lookup field r.fields) (at_base h (ok none) (λ b. get_type f h field b) r.base)

-- `std::ranges::find` in `index`.
unfoldable pub position : Text → List Text → Option ℕ
position field [] = none
position field (name ∷ names) =
    let rest = position field names in
    if text_eq name field then some 0 else elim rest [ none ↦ none | some n ↦ some (suc n) ]

-- `get_index`: none is the result -1.
abbrev pub own_index : ℕ → Text → RecordNode → Option ℕ
own_index base_count field r = elim (position field r.index) [
  | none ↦ none
  | some n ↦ some (base_count + n)
]

abbrev pub index_or : Text → RecordNode → RecordNode → Option ℕ → Result (Option ℕ)
index_or field r b (some d) = ok (some d)
index_or field r b none = ok (own_index (count b) field r)

unfoldable pub get_index : ℕ → Heap → Text → RecordNode → Result (Option ℕ)
get_index zero h field r = out_of_fuel
get_index (suc f) h field r =
    at_base h (ok (own_index 0 field r)) (λ b. get_index f h field b >>= λ d. index_or field r b d)
      r.base

-- What `get_fieldTypes` lays out, those of the base first: for a field its name, and none for the
-- dummy of an empty layout.
abbrev pub named : List Text → List (Option Text)
named [] = []
named (name ∷ names) = some name ∷ named names

abbrev pub or_dummy : List (Option Text) → List (Option Text)
or_dummy [] = none ∷ []
or_dummy (slot ∷ slots) = slot ∷ slots

unfoldable pub get_field_types : ℕ → Heap → RecordNode → Result (List (Option Text))
get_field_types zero h r = out_of_fuel
get_field_types (suc f) h r = at_base h (ok []) (λ b. get_field_types f h b) r.base >>= λ slots.
    ok (or_dummy (slots ++ named r.index))
