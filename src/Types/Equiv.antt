-- ===== src/Types/Equiv.antt =====
-- `Type_::equiv`, `RecordType::equiv` and `RecordType::is_base`: src/compiler/types/type_base.cc and
-- src/compiler/types/type_record.cc. A call takes a unit of fuel for each call of `equiv` in it.
pub mod Loops
use axcomp.Prelude.{
  ℕ, zero, suc, Bool, true, false, not, ◌||◌, ◌&&◌, List, [], ◌∷◌, Option, none, some, get_elem?,
  length, if◌then◌else◌, ◌==◌, Text, text_eq,
}
use axcomp.Error.{Result, ok, err, out_of_fuel, null_pointer, ◌>>=◌}
use axcomp.SymbolTable.Map.{lookup}
use axcomp.Types.{
  TypeId, TypeNode, Heap, RecordNode, type_id, id_eq, simple, enumerated, array_of, open_array_of,
  record_of, pointer_to, procedure_of, forward_of, alias_of, module_of,
}

abbrev pub Compare : Type 0
Compare = ℕ → ℕ → Result Bool

abbrev pub xor : Bool → Bool → Bool
xor a b = (a && not b) || (not a && b)

abbrev pub has : Option ℕ → Bool
has none = false
has (some _) = true

abbrev pub pair_equiv : Compare → Option ℕ → Option ℕ → Result Bool
pair_equiv equiv none t = err null_pointer
pair_equiv equiv (some s) none = err null_pointer
pair_equiv equiv (some s) (some t) = equiv s t

-- The loop over the fields, by the names in both indexes.
unfoldable pub fields_equiv :
    Compare → RecordNode → RecordNode → ℕ → List Text → List Text → Result Bool
fields_equiv equiv a b zero is js = ok true
fields_equiv equiv a b (suc n) [] js = err null_pointer
fields_equiv equiv a b (suc n) (i ∷ is) [] = err null_pointer
fields_equiv equiv a b (suc n) (i ∷ is) (j ∷ js) =
    pair_equiv equiv (lookup i a.fields) (lookup j b.fields) >>= λ same.
    let rest = fields_equiv equiv a b n is js in if same then rest else ok false

-- `RecordType::equiv`
unfoldable pub record_equiv : Compare → RecordNode → RecordNode → Result Bool
record_equiv equiv a b =
    if xor (has a.base) (has b.base)
    then ok false
    else if not (length a.fields == length b.fields)
    then ok false
    else fields_equiv equiv a b (length a.fields) a.index b.index

-- `RecordType::is_base` of the record `a` at the type `t`, whose object is `n`.
abbrev pub is_base_of : Compare → Option ℕ → ℕ → Bool → Result Bool
is_base_of equiv none t is_record = ok false
is_base_of equiv (some b) t false = ok false
is_base_of equiv (some b) t true = equiv t b

unfoldable pub is_base : Compare → RecordNode → ℕ → TypeNode → Result Bool
unfolding type_id
is_base equiv a t n = is_base_of equiv a.base t (id_eq (type_id n) TypeId.record_id)

-- Two pointers by what they refer to: a record `a` with the index and the object of the other
-- referent, or else the referent `r` of the first with the second pointer `t`.
abbrev pub other_equiv : Compare → ℕ → ℕ → Result Bool
other_equiv equiv r t = equiv r t >>= λ _. ok true

abbrev pub record_referent : Compare → ℕ → ℕ → RecordNode → ℕ → Option TypeNode → Result Bool
record_referent equiv r t a q none = err null_pointer
record_referent equiv r t a q (some (record_of b)) =
    is_base equiv a q (record_of b) >>= λ base. if base then ok true else record_equiv equiv a b
record_referent equiv r t a q (some n) = other_equiv equiv r t

abbrev pub second_referent : Compare → Heap → ℕ → ℕ → RecordNode → Option ℕ → Result Bool
second_referent equiv h r t a none = err null_pointer
second_referent equiv h r t a (some q) = record_referent equiv r t a q (get_elem? h q)

abbrev pub referent_equiv : Compare → Heap → ℕ → ℕ → Option ℕ → Option TypeNode → Result Bool
referent_equiv equiv h t r q none = err null_pointer
referent_equiv equiv h t r q (some (record_of a)) = second_referent equiv h r t a q
referent_equiv equiv h t r q (some m) = other_equiv equiv r t

abbrev pub pointers_equiv : Compare → Heap → ℕ → Option ℕ → Option ℕ → Result Bool
pointers_equiv equiv h t none q = err null_pointer
pointers_equiv equiv h t (some r) q = referent_equiv equiv h t r q (get_elem? h r)

-- `Type_::equiv` of objects of one `id`.
unfoldable pub same_id_equiv : Compare → Heap → ℕ → TypeNode → TypeNode → Result Bool
same_id_equiv equiv h t (enumerated n vs) (enumerated m ws) = ok (text_eq n m)
same_id_equiv equiv h t (record_of a) (record_of b) =
    record_equiv equiv a b >>= λ same. if same then ok true else is_base equiv a t (record_of b)
same_id_equiv equiv h t (pointer_to r n) (pointer_to q m) = pointers_equiv equiv h t r q
same_id_equiv equiv h t a b = ok true

-- `Type_::equiv` by the objects of both types.
unfoldable pub equiv_nodes : Compare → Heap → ℕ → Option TypeNode → Option TypeNode → Result Bool
unfolding type_id
equiv_nodes equiv h t none n = err null_pointer
equiv_nodes equiv h t (some m) none = err null_pointer
equiv_nodes equiv h t (some m) (some n) =
    if id_eq (type_id n) TypeId.str1
    then ok (id_eq (type_id m) TypeId.string || id_eq (type_id m) TypeId.char)
    else if not (id_eq (type_id m) (type_id n))
    then ok false
    else same_id_equiv equiv h t m n

unfoldable pub equiv : ℕ → Heap → Compare
equiv zero h s t = out_of_fuel
equiv (suc f) h s t = equiv_nodes (equiv f h) h t (get_elem? h s) (get_elem? h t)
