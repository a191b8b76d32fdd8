-- ===== src/Types/Equiv/Loops.antt =====
-- What `equiv` says of pointers: src/compiler/types/type_base.cc.
use axcomp.Prelude.{
  ℕ, zero, suc, ◌≡◌, refl, ◌∙◌, ap, Bool, true, false, [], ◌∷◌, Option, none, some, get_elem?, Text,
  text_eq_refl,
}
use axcomp.Error.{Result, ok, out_of_fuel, ◌>>=◌}
use axcomp.SymbolTable.Map.{lookup}
use axcomp.Types.{
  TypeId, TypeNode, Heap, RecordNode, type_id, id_eq, ordinal, record_of, pointer_to,
}
use axcomp.Types.Equiv.{
  equiv, equiv_nodes, same_id_equiv, record_equiv, fields_equiv, is_base, pointers_equiv,
}

-- One call of `equiv` on two pointers.
equiv-pointers :
    (f : ℕ) (h : Heap) (s t : ℕ) {r q : Option ℕ} {n m : Text}
    → get_elem? h s ≡ some (pointer_to r n)
    → get_elem? h t ≡ some (pointer_to q m)
    → equiv (suc f) h s t ≡ pointers_equiv (equiv f h) h t r q
unfolding equiv equiv_nodes same_id_equiv type_id ordinal id_eq
equiv-pointers f h s t e k = rw (e, k) refl

-- A type that is no pointer is not equivalent to a pointer.
equiv-no_pointer :
    (f : ℕ) (h : Heap) (s t : ℕ) (node : TypeNode) {q : Option ℕ} {m : Text}
    → get_elem? h s ≡ some node
    → id_eq (type_id node) TypeId.pointer ≡ false
    → get_elem? h t ≡ some (pointer_to q m)
    → equiv (suc f) h s t ≡ ok false
unfolding equiv equiv_nodes type_id ordinal id_eq
equiv-no_pointer f h s t node e other k = rw (e, k, other) refl

abbrev then_true : Result Bool → Result Bool
then_true r = r >>= λ _. ok true

-- A pointer to a type that is neither a record nor a pointer is equivalent to every pointer.
pub equiv-plain_pointer :
    (f : ℕ) (h : Heap) (s t r : ℕ) (node : TypeNode) {q : Option ℕ} {n m : Text}
    → get_elem? h s ≡ some (pointer_to (some r) n)
    → get_elem? h t ≡ some (pointer_to q m)
    → get_elem? h r ≡ some node
    → id_eq (type_id node) TypeId.record_id ≡ false
    → id_eq (type_id node) TypeId.pointer ≡ false
    → equiv (suc (suc f)) h s t ≡ ok true
unfolding type_id ordinal id_eq
equiv-plain_pointer f h s t r (record_of a) e k there no_record no_pointer = cc
equiv-plain_pointer f h s t r node e k there no_record no_pointer =
    equiv-pointers (suc f) h s t e k
    ∙ rw there (ap then_true (equiv-no_pointer f h r t node there no_pointer k))

-- A pointer to a record is equivalent to every pointer to a type that is not a record.
pub equiv-mixed_pointers :
    (f : ℕ) (h : Heap) (s t r p : ℕ) (a : RecordNode) (node : TypeNode) {n m : Text}
    → get_elem? h s ≡ some (pointer_to (some r) n)
    → get_elem? h t ≡ some (pointer_to (some p) m)
    → get_elem? h r ≡ some (record_of a)
    → get_elem? h p ≡ some node
    → id_eq (type_id node) TypeId.record_id ≡ false
    → equiv (suc (suc f)) h s t ≡ ok true
unfolding type_id ordinal id_eq
equiv-mixed_pointers f h s t r p a (record_of b) e k there here no_record = cc
equiv-mixed_pointers f h s t r p a node e k there here no_record =
    equiv-pointers (suc f) h s t e k
    ∙ rw there (rw here (ap then_true (equiv-no_pointer f h r t (record_of a) there refl k)))

-- A record without a base, whose only field is a pointer to the record itself.
module _ (h : Heap) (r p : ℕ) (x name identified : Text) where
  abbrev self : RecordNode
  self = record { identified = identified; base = none; fields = (x, p) ∷ []; index = x ∷ [] }

  -- On a pointer to such a record, and on the record, `equiv` never returns: no fuel suffices, neither
  -- for the pointer with itself nor for the record with itself.
  pub equiv-self_pointer :
      (f : ℕ)
      → get_elem? h r ≡ some (record_of self)
      → get_elem? h p ≡ some (pointer_to (some r) name)
      → (equiv f h p p ≡ out_of_fuel) × (equiv f h r r ≡ out_of_fuel)
  unfolding record_equiv fields_equiv is_base lookup equiv equiv_nodes same_id_equiv type_id ordinal
      id_eq
  equiv-self_pointer zero here there = (refl, refl)
  equiv-self_pointer (suc f) here there =
      let pointers = (equiv-self_pointer f here there).0 in
      (
        equiv-pointers f h p p there there ∙ rw (here, here, text_eq_refl x, pointers) refl,
        rw (here, text_eq_refl x, pointers) refl,
      )

-- Between a record without a base that is equivalent to itself and a record that extends it,
-- pointers are equivalent in one direction alone: `equiv` holds of a pointer to the extension with a
-- pointer to the base, and does not hold of a pointer to the base with a pointer to the extension.
pub equiv-extension :
    (f : ℕ) (h : Heap) (s t b d : ℕ) (base derived : RecordNode) {n m : Text}
    → get_elem? h s ≡ some (pointer_to (some b) n)
    → get_elem? h t ≡ some (pointer_to (some d) m)
    → get_elem? h b ≡ some (record_of base)
    → get_elem? h d ≡ some (record_of derived)
    → base.base ≡ none
    → derived.base ≡ some b
    → equiv f h b b ≡ ok true
    → (equiv (suc f) h s t ≡ ok false) × (equiv (suc f) h t s ≡ ok true)
unfolding record_equiv is_base type_id ordinal id_eq
equiv-extension f h s t b d base derived e k there here root above same = (
  equiv-pointers f h s t e k ∙ rw (there, here, root, above) refl,
  equiv-pointers f h t s k e ∙ rw (here, there, above, same) refl,
)
