-- ===== src/Types/Records/Index.antt =====
-- The index of a field against the layout of the record: src/compiler/types/type_record.cc.
use axcomp.Prelude.{
  ℕ, zero, suc, ◌+◌, ◌<◌, ◌≡◌, refl, ◌∙◌, ap, arith, Bool, true, false, List, [], ◌∷◌, ◌++◌, Option,
  none, some, get_elem?, length, Text, text_eq, get_elem?-append_right, get_elem?-append_left,
  get_elem?-lt, length-append, sym, text_eq_iff, Bool-cases, Option-cases, ◌⊎◌, inl, inr,
}
use axcomp.Error.{Result, ok, ◌>>=◌}
use axcomp.SymbolTable.Map.{lookup}
use axcomp.Types.{TypeNode, Heap, RecordNode, record_of}
use axcomp.Types.Records.{
  at_base, at_record, has_or, type_or, has_field, get_type, position, get_index, count, named,
  or_dummy, get_field_types,
}

abbrev pub found : Option ℕ → Bool
found none = false
found (some _) = true

abbrev found_in : Result (Option ℕ) → Result Bool
found_in r = r >>= λ t. ok (found t)

-- A record has a field just if it has a type for it, in itself or in the records it extends; a
-- broken base is met by both alike.
pub has_field-get_type :
    (f : ℕ) (h : Heap) (field : Text) (r : RecordNode)
    → has_field f h field r ≡ (get_type f h field r >>= λ t. ok (found t))
unfolding has_field get_type
has_field-get_type zero h field r = refl
has_field-get_type (suc f) h field r =
    here (lookup field r.fields) r.base (above λ b. has_field-get_type f h field b)
  where
    above :
        ((b : RecordNode) → has_field f h field b ≡ found_in (get_type f h field b))
        → (o : Option TypeNode)
        → at_record (λ b. has_field f h field b) o
          ≡ found_in (at_record (λ b. get_type f h field b) o)
    above ih (some (record_of b)) = ih b
    above ih none = refl
    above ih (some _) = refl

    here :
        (own b : Option ℕ)
        → ((o : Option TypeNode)
            → at_record (λ b. has_field f h field b) o
              ≡ found_in (at_record (λ b. get_type f h field b) o))
        → has_or own (at_base h (ok false) (λ b. has_field f h field b) b)
          ≡ found_in (type_or own (at_base h (ok none) (λ b. get_type f h field b) b))
    here (some t) b up = refl
    here none none up = refl
    here none (some b) up = up (get_elem? h b)

position-get_elem? :
    (field : Text) (names : List Text) {n : ℕ}
    → position field names ≡ some n
    → get_elem? (named names) n ≡ some (some field)
unfolding position
position-get_elem? field [] e = cc
position-get_elem? field (name ∷ names) {n} e = elim (Bool-cases (text_eq name field)) [
  | inl same ↦ let first : n ≡ 0 = ground arith in rw (first, (text_eq_iff name field).0 same) refl
  | inr other ↦ elim (Option-cases (position field names)) [
    | inl missing ↦ ground arith
    | inr (m, there) ↦
        let next : n ≡ suc m = ground arith in rw next (position-get_elem? field names there)
  ]
]

length-named : (names : List Text) → length (named names) ≡ length names
length-named [] = refl
length-named (name ∷ names) = ap suc (length-named names)

-- A layout that has a field has no dummy.
or_dummy-id : (slots : List (Option Text)) → 0 < length slots → or_dummy slots ≡ slots
or_dummy-id [] h = elim h [ ]
or_dummy-id (slot ∷ slots) h = refl

layout-root :
    (f : ℕ) (h : Heap) (r : RecordNode)
    → r.base ≡ none
    → 0 < length r.index
    → get_field_types (suc f) h r ≡ ok (named r.index)
unfolding get_field_types
layout-root f h r root some_field =
    let filled : 0 < length (named r.index) = omega (arith, length-named r.index) in
    rw root (ap ok (or_dummy-id (named r.index) filled))

layout-extends :
    (f : ℕ) (h : Heap) (r b : RecordNode) (i : ℕ) (slots : List (Option Text))
    → r.base ≡ some i
    → get_elem? h i ≡ some (record_of b)
    → get_field_types f h b ≡ ok slots
    → 0 < length slots
    → get_field_types (suc f) h r ≡ ok (slots ++ named r.index)
unfolding get_field_types
layout-extends f h r b i slots extends there below filled =
    let longer : 0 < length (slots ++ named r.index) =
      omega (arith, length-append slots (named r.index)) in
    rw (extends, there, below) (ap ok (or_dummy-id (slots ++ named r.index) longer))

-- The index that `get_index` gives for a field that the bases lack.
get_index-own :
    (f : ℕ) (h : Heap) (field : Text) (r b : RecordNode) (i : ℕ) {n : ℕ}
    → r.base ≡ some i
    → get_elem? h i ≡ some (record_of b)
    → get_index f h field b ≡ ok none
    → position field r.index ≡ some n
    → get_index (suc f) h field r ≡ ok (some (count b + n))
unfolding get_index
get_index-own f h field r b i extends there lacks own =
    rw (extends, there, lacks)
      (ap (λ o. ok (elim o [ none ↦ none | some m ↦ some (count b + m) ])) own)

get_index-root :
    (f : ℕ) (h : Heap) (field : Text) (r : RecordNode)
    → r.base ≡ none
    → get_index (suc f) h field r ≡ ok (position field r.index)
unfolding get_index
get_index-root f h field r root = rw root (go (position field r.index))
  where
    go : (o : Option ℕ) → ok (elim o [ none ↦ none | some n ↦ some (0 + n) ]) ≡ ok o
    go none = refl
    go (some n) = ap (λ m. ok (some m)) (omega arith)

-- In a record that extends one without a base, where the base has a field, the index of a field of
-- either is the slot of the field in the layout, and there is none for a name that neither has.
pub get_index-one_base :
    (f : ℕ) (h : Heap) (field : Text) (r b : RecordNode) (i : ℕ)
    → r.base ≡ some i
    → get_elem? h i ≡ some (record_of b)
    → b.base ≡ none
    → 0 < length b.index
    → ((slots : List (Option Text)) × (n : ℕ) × (get_field_types (suc (suc f)) h r ≡ ok slots)
        × (get_index (suc (suc f)) h field r ≡ ok (some n))
        × (get_elem? slots n ≡ some (some field)))
      ⊎ ((get_index (suc (suc f)) h field r ≡ ok none)
          × (position field b.index ≡ none)
          × (position field r.index ≡ none))
unfolding get_index
get_index-one_base f h field r b i extends there root filled =
    elim (Option-cases (position field b.index)) [
      | inr (n, e) ↦
          let at = position-get_elem? field b.index e in
          inl (
            named b.index ++ named r.index,
            n,
            layout,
            rw (extends, there) (rw (get_index-root f h field b root, e) refl),
            get_elem?-append_left (named b.index) (named r.index) n
                  (get_elem?-lt (named b.index) n at)
                ∙ at,
          )
      | inl lacks ↦
          let above : get_index (suc f) h field b ≡ ok none =
            get_index-root f h field b root ∙ ap ok lacks in
          elim (Option-cases (position field r.index)) [
            | inr (n, own) ↦ inl (
              named b.index ++ named r.index,
              count b + n,
              layout,
              get_index-own (suc f) h field r b i extends there above own,
              ap (λ m. get_elem? (named b.index ++ named r.index) (m + n))
                    (sym (length-named b.index))
                  ∙ get_elem?-append_right (named b.index) (named r.index) n
                  ∙ position-get_elem? field r.index own,
            )
            | inl missing ↦ inr (
              rw (extends, there, above)
                  (ap (λ o. ok (elim o [ none ↦ none | some m ↦ some (count b + m) ])) missing),
              lacks,
              missing,
            )
          ]
    ]
  where
    layout : get_field_types (suc (suc f)) h r ≡ ok (named b.index ++ named r.index)
    layout =
        layout-extends (suc f) h r b i (named b.index) extends there (layout-root f h b root filled)
          (omega (arith, length-named b.index))

-- Two steps away from a root that has a field the index is wrong: for a field of the record that no
-- base has, `get_index` counts the fields of the nearest base alone, while the slot of the field
-- comes after those of the root as well.
pub get_index-two_bases :
    (f : ℕ) (h : Heap) (field : Text) (r b a : RecordNode) (i j n : ℕ)
    → r.base ≡ some i
    → get_elem? h i ≡ some (record_of b)
    → b.base ≡ some j
    → get_elem? h j ≡ some (record_of a)
    → a.base ≡ none
    → 0 < length a.index
    → position field a.index ≡ none
    → position field b.index ≡ none
    → position field r.index ≡ some n
    → (slots : List (Option Text)) × (get_field_types (suc (suc (suc f))) h r ≡ ok slots)
      × (get_elem? slots (count a + count b + n) ≡ some (some field))
      × (get_index (suc (suc (suc f))) h field r ≡ ok (some (count b + n)))
      × (count b + n < count a + count b + n)
unfolding get_index
get_index-two_bases f h field r b a i j n extends there further below root filled lacks_a lacks_b
      own =
    let first : 0 < length (named a.index) = omega (arith, length-named a.index) in
    let slots : List (Option Text) = named a.index ++ named b.index in
    let layout =
      layout-extends (suc f) h b a j (named a.index) further below (layout-root f h a root filled)
        first in
    let size : count a + count b ≡ length slots = omega (
      arith,
      length-append (named a.index) (named b.index),
      length-named a.index,
      length-named b.index,
    ) in
    let lacks : get_index (suc (suc f)) h field b ≡ ok none =
      rw (further, below)
        (rw (get_index-root f h field a root, lacks_a)
          (ap (λ o. ok (elim o [ none ↦ none | some m ↦ some (count a + m) ])) lacks_b)) in
    (
      slots ++ named r.index,
      layout-extends (suc (suc f)) h r b i slots extends there layout (omega arith),
      ap (λ m. get_elem? (slots ++ named r.index) (m + n)) size
          ∙ get_elem?-append_right slots (named r.index) n
          ∙ position-get_elem? field r.index own,
      get_index-own (suc (suc f)) h field r b i extends there lacks own,
      omega arith,
    )
