-- ===== src/Types/Names.antt =====
-- `Type_::get_name`: the operators `std::string` of src/compiler/types/. The fuel is for the types
-- within types: a pointer is printed by the name that it refers to.
use axcomp.Prelude.{
  decimal, ℕ, zero, suc, Bool, true, false, List, [], ◌∷◌, ◌++◌, Option, none, some, get_elem?,
  if◌then◌else◌, Text, codes,
}
use axcomp.Error.{Result, ok, err, out_of_fuel, null_pointer, ◌>>=◌}
use axcomp.Types.{
  TypeNode, Heap, RecordNode, ProcedureNode, simple, enumerated, array_of, open_array_of, record_of,
  pointer_to, procedure_of, forward_of, alias_of, module_of,
}

abbrev pub joined : List Text → Text
joined [] = []
joined (s ∷ []) = s
joined (s ∷ t ∷ ts) = s ++ b',' ∷ joined (t ∷ ts)

abbrev pub decimals : List ℕ → List Text
decimals [] = []
decimals (d ∷ ds) = decimal d ∷ decimals ds

abbrev pub Name : Type 0
Name = ℕ → Result Text

-- `RecordType::operator std::string`
abbrev pub base_name : Name → Option ℕ → Result Text
base_name name none = ok []
base_name name (some b) = name b >>= λ s. ok (b'(' ∷ s ++ b')' ∷ [])

abbrev pub record_name : Name → RecordNode → Result Text
record_name name r = base_name name r.base >>= λ s. ok (b'{' ∷ s ++ joined r.index ++ b'}' ∷ [])

-- `ProcedureType::get_print`
unfoldable pub params_name : Name → Text → List (ℕ × Bool) → Result Text
params_name name insert [] = ok []
params_name name insert ((t, is_var) ∷ ps) =
    let rest = params_name name (codes ", ") ps in
    name t >>= λ s. rest >>= λ ss. ok (insert ++ (if is_var then codes " VAR " else []) ++ s ++ ss)

abbrev pub return_name : Name → Option ℕ → Result Text
return_name name none = ok []
return_name name (some t) = name t >>= λ s. ok (b':' ∷ s)

unfoldable pub get_print : Name → Bool → ProcedureNode → Result Text
get_print name forward p = base_name name p.receiver >>= λ receiver.
    params_name name [] p.params >>= λ params. return_name name p.ret >>= λ ret.
    ok ((if forward then codes "^" else []) ++ receiver ++ b'(' ∷ params ++ b')' ∷ ret)

abbrev pub node_name : Name → Option TypeNode → Result Text
node_name name none = err null_pointer
node_name name (some (simple i n)) = ok n
node_name name (some (enumerated n vs)) = ok n
node_name name (some (array_of b ds)) =
    name b >>= λ s. ok (s ++ b'[' ∷ joined (decimals ds) ++ b']' ∷ [])
node_name name (some (open_array_of b ds)) = name b >>= λ s. ok (s ++ codes "[]")
node_name name (some (record_of r)) = record_name name r
node_name name (some (pointer_to r n)) = ok (b'^' ∷ n)
node_name name (some (procedure_of p)) = get_print name false p
node_name name (some (forward_of p)) = get_print name true p
node_name name (some (alias_of n t)) = ok n
node_name name (some (module_of n)) = ok (codes "MODULE: " ++ n)

unfoldable pub get_name : ℕ → Heap → ℕ → Result Text
get_name zero h t = out_of_fuel
get_name (suc f) h t = node_name (get_name f h) (get_elem? h t)
