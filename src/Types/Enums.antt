-- ===== src/Types/Enums.antt =====
-- `EnumType` of src/compiler/types/type_simple.hh: the values of an enumeration and their numbers.
use axcomp.Prelude.{
  ℕ, suc, ◌+◌, ◌≡◌, refl, ap, ◌∙◌, subst, arith, Bool, true, false, List, [], ◌∷◌, ◌++◌, Option,
  none, some, length, length-append, if◌then◌else◌, Text, text_eq, text_eq_iff, Bool-cases,
  Option-cases, inl, inr,
}
use axcomp.SymbolTable.Map.{lookup, insert, lookup-insert}
use axcomp.Types.Records.{position}

pub record Enumeration : Type 0 where
  pub values : List Text
  pub ordinals : List (Text × ℕ)

-- `emplace` of `std::unordered_map`: an entry that is there stays.
abbrev pub emplace_at : Option ℕ → Text → ℕ → List (Text × ℕ) → List (Text × ℕ)
emplace_at (some _) name n m = m
emplace_at none name n m = insert name n m

-- `add_value`
unfoldable pub add_value : Text → Enumeration → Enumeration
add_value name e = record {
  values = e.values ++ name ∷ [];
  ordinals = emplace_at (lookup name e.ordinals) name (length e.values) e.ordinals;
}

-- The values of a declaration, added in order.
unfoldable pub add_values : List Text → Enumeration → Enumeration
add_values [] e = e
add_values (name ∷ names) e = add_values names (add_value name e)

-- `get_ordinal`
unfoldable pub get_ordinal : Text → Enumeration → Option ℕ
get_ordinal name e = lookup name e.ordinals

abbrev pub no_values : Enumeration
no_values = record { values = []; ordinals = [] }

-- The number that a name has in `o`, or else `k` more than in `p`.
abbrev shifted : ℕ → Option ℕ → Option ℕ → Option ℕ
shifted k (some n) p = some n
shifted k none none = none
shifted k none (some n) = some (k + n)

lookup-emplace :
    (name x : Text) (n : ℕ) (m : List (Text × ℕ))
    → lookup x (emplace_at (lookup name m) name n m)
      ≡ shifted n (lookup x m) (if text_eq name x then some 0 else none)
lookup-emplace name x n m = elim (Option-cases (lookup name m)) [
  | inr (v, there) ↦ elim (Bool-cases (text_eq name x)) [
    | inr other ↦ rw (there, other) (kept (lookup x m))
    | inl same ↦
        let found : lookup x m ≡ some v =
          subst (λ y. lookup y m ≡ some v) ((text_eq_iff name x).0 same) there in
        rw (there, found) refl
  ]
  | inl missing ↦ elim (Bool-cases (text_eq name x)) [
    | inr other ↦ rw missing (lookup-insert name x n m ∙ rw other (kept (lookup x m)))
    | inl same ↦
        let lacks : lookup x m ≡ none =
          subst (λ y. lookup y m ≡ none) ((text_eq_iff name x).0 same) missing in
        let first : n ≡ n + 0 = omega arith in
        rw missing (lookup-insert name x n m ∙ rw (same, lacks) (ap some first))
  ]
]
  where
    kept : (o : Option ℕ) → o ≡ shifted n o none
    kept none = refl
    kept (some v) = refl

shifted-suc :
    (k : ℕ) (o p : Option ℕ) (b : Bool)
    → shifted (suc k) (shifted k o (if b then some 0 else none)) p
      ≡ shifted k o (if b then some 0 else elim p [ none ↦ none | some n ↦ some (suc n) ])
shifted-suc k (some v) p b = refl
shifted-suc k none p true = refl
shifted-suc k none none false = refl
shifted-suc k none (some n) false = let next : suc k + n ≡ k + suc n = omega arith in ap some next

lookup-add_values :
    (names : List Text) (e : Enumeration) (x : Text)
    → lookup x (add_values names e).ordinals
      ≡ shifted (length e.values) (lookup x e.ordinals) (position x names)
unfolding add_values add_value position
lookup-add_values [] e x = kept (lookup x e.ordinals)
  where
    kept : (o : Option ℕ) → o ≡ shifted (length e.values) o none
    kept none = refl
    kept (some v) = refl
lookup-add_values (name ∷ names) e x =
    let k : ℕ = length e.values in
    let longer : length (e.values ++ name ∷ []) ≡ suc k =
      omega (arith, length-append e.values (name ∷ [])) in
    lookup-add_values names (add_value name e) x
    ∙ ap (λ n. shifted n (lookup x (add_value name e).ordinals) (position x names)) longer
    ∙ ap (λ o. shifted (suc k) o (position x names)) (lookup-emplace name x k e.ordinals)
    ∙ shifted-suc k (lookup x e.ordinals) (position x names) (text_eq name x)

-- The number of a name is its place among the values of the declaration, the first one where it is
-- declared twice, and a name that is not declared has none.
pub get_ordinal-add_values :
    (names : List Text) (x : Text) → get_ordinal x (add_values names no_values) ≡ position x names
unfolding get_ordinal lookup
get_ordinal-add_values names x = lookup-add_values names no_values x ∙ plain (position x names)
  where
    plain : (o : Option ℕ) → shifted 0 none o ≡ o
    plain none = refl
    plain (some n) = let same : 0 + n ≡ n = omega arith in ap some same
