-- ===== src/SymbolTable/Map.antt =====
-- `std::map` and `std::set` on names, as src/compiler/symboltable.hh uses them.
use axcomp.Prelude.{
  ◌≡◌, refl, Bool, true, false, ◌||◌, List, [], ◌∷◌, Option, none, some, if◌then◌else◌, Text,
  text_eq, text_eq_iff, text_eq_refl, arith, subst, Bool-cases, inl, inr,
}

module _ {ℓ} {V : Type ℓ} where
  -- `find`, with none for `end()`
  unfoldable pub lookup : Text → List (Text × V) → Option V
  lookup k [] = none
  lookup k ((j, v) ∷ m) = if text_eq j k then some v else lookup k m

  -- `m[k] = v`
  unfoldable pub insert : Text → V → List (Text × V) → List (Text × V)
  insert k v [] = (k, v) ∷ []
  insert k v ((j, w) ∷ m) = if text_eq j k then (j, v) ∷ m else (j, w) ∷ insert k v m

  -- `erase`
  unfoldable pub erase : Text → List (Text × V) → List (Text × V)
  erase k [] = []
  erase k ((j, w) ∷ m) = if text_eq j k then erase k m else (j, w) ∷ erase k m

  pub lookup-insert :
      (k j : Text) (v : V) (m : List (Text × V))
      → lookup j (insert k v m) ≡ (if text_eq k j then some v else lookup j m)
  unfolding lookup insert
  lookup-insert k j v [] = refl
  lookup-insert k j v ((i, w) ∷ m) =
      ground (arith, text_eq_iff k j, text_eq_iff i k, text_eq_iff i j, lookup-insert k j v m)

  pub lookup-erase :
      (k j : Text) (m : List (Text × V))
      → lookup j (erase k m) ≡ (if text_eq k j then none else lookup j m)
  unfolding lookup erase
  lookup-erase k j [] = ground arith
  lookup-erase k j ((i, w) ∷ m) =
      ground (arith, text_eq_iff k j, text_eq_iff i k, text_eq_iff i j, lookup-erase k j m)

  pub lookup-insert_self :
      (k : Text) (v : V) (m : List (Text × V)) → lookup k (insert k v m) ≡ some v
  lookup-insert_self k v m = simp (lookup-insert, text_eq_refl)

-- `contains` of a set of names
unfoldable pub contains : Text → List Text → Bool
contains k [] = false
contains k (j ∷ s) = text_eq j k || contains k s

-- `insert` into a set of names
unfoldable pub include : Text → List Text → List Text
include k s = if contains k s then s else k ∷ s

pub contains-include :
    (k j : Text) (s : List Text) → contains j (include k s) ≡ (text_eq k j || contains j s)
unfolding contains include
contains-include k j s = elim (Bool-cases (contains k s)) [
  | inr new ↦ rw new refl
  | inl old ↦ elim (Bool-cases (text_eq k j)) [
    | inr other ↦ rw (old, other) refl
    | inl same ↦
        let here : contains j s ≡ true =
          subst (λ w. contains w s ≡ true) ((text_eq_iff k j).0 same) old in
        rw (old, same) here
  ]
]
