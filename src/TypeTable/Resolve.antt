-- ===== src/TypeTable/Resolve.antt =====
-- `resolve` of src/compiler/typetable.cc ends.
use axcomp.Prelude.{
  ℕ, zero, suc, ◌<◌, ◌≡◌, ◌⊎◌, inl, inr, refl, ap, ◌∙◌, arith, Bool, true, false, Option, none,
  some, get_elem?, if◌then◌else◌, Text, text_eq, text_eq_iff, text_eq_refl, Bool-cases,
  Option-cases,
}
use axcomp.Error.{Result, ok}
use axcomp.SymbolTable.Map.{lookup}
use axcomp.Types.{TypeNode, alias_of}
use axcomp.TypeTable.{TypeTable, name_of, resolve_loop, resolve_node}

abbrev pub is_alias : TypeNode → Bool
is_alias (alias_of own target) = true
is_alias _ = false

-- The object `i` is there and is no alias.
abbrev pub IsPlain : TypeTable → ℕ → Type 0
IsPlain t i = (node : TypeNode) × (get_elem? t.heap i ≡ some node) × (is_alias node ≡ false)

-- The object `i` is an alias of the object `target`, whose name is `next`.
abbrev pub IsAlias : TypeTable → ℕ → ℕ → Text → Type 0
IsAlias t i target next =
    (own : Text) × (get_elem? t.heap i ≡ some (alias_of own target)) × (name_of t target ≡ ok next)

-- What a name of the table stands for: no alias, an alias of a type with the same name that is none,
-- or an alias of a type whose name is below it in the rank.
abbrev pub IsEntry : (Text → ℕ) → TypeTable → Text → ℕ → Type 0
IsEntry rank t name i =
    IsPlain t i
    ⊎ ((target : ℕ) × IsAlias t i target name × IsPlain t target)
    ⊎ ((target : ℕ) × (next : Text) × IsAlias t i target next × (rank next < rank name))

abbrev pub IsRanked : (Text → ℕ) → TypeTable → Type 0
IsRanked rank t = (name : Text) (i : ℕ) → lookup name t.types ≡ some i → IsEntry rank t name i

-- A name is resolved: it is unknown, or stands for a type that is no alias.
abbrev pub Resolves : TypeTable → Result (Option ℕ) → Type 0
Resolves t r = (r ≡ ok none) ⊎ ((i : ℕ) × (r ≡ ok (some i)) × IsPlain t i)

resolve_node-plain :
    (loop : Text → Result (Option ℕ)) (t : TypeTable) (name : Text) (i : ℕ) (node : TypeNode)
    → get_elem? t.heap i ≡ some node
    → is_alias node ≡ false
    → resolve_node loop t name i (get_elem? t.heap i) ≡ ok (some i)
resolve_node-plain loop t name i (alias_of own target) e h = cc
resolve_node-plain loop t name i node e h = rw e refl

resolve_node-alias :
    (loop : Text → Result (Option ℕ)) (t : TypeTable) (name next : Text) (i target : ℕ)
    → IsAlias t i target next
    → resolve_node loop t name i (get_elem? t.heap i)
      ≡ (if text_eq next name then ok (some target) else loop next)
resolve_node-alias loop t name next i target (own, e, named) = rw (e, named) refl

-- Where a rank falls along the aliases of the table, the loop of `resolve` ends within the rank of
-- the name, and finds that the name is unknown or a type that is no alias.
pub resolve_loop-ends :
    (f : ℕ) (rank : Text → ℕ) (t : TypeTable) (name : Text)
    → IsRanked rank t
    → rank name < f
    → Resolves t (resolve_loop f t name)
unfolding resolve_loop
resolve_loop-ends zero rank t name ranked h = elim h [ ]
resolve_loop-ends (suc f) rank t name ranked h = elim (Option-cases (lookup name t.types)) [
  | inl unknown ↦ inl (rw unknown refl)
  | inr (i, known) ↦ elim (ranked name i known) [
    | inl (node, here, plain) ↦ inr (
      i,
      rw known (resolve_node-plain (resolve_loop f t) t name i node here plain),
      (node, here, plain),
    )
    | inr (inl (target, alias, plain)) ↦
        let step = resolve_node-alias (resolve_loop f t) t name name i target alias in
        inr (target, rw known (step ∙ rw (text_eq_refl name) refl), plain)
    | inr (inr (target, next, alias, below)) ↦
        let step = resolve_node-alias (resolve_loop f t) t name next i target alias in
        let other : text_eq next name ≡ false = elim (Bool-cases (text_eq next name)) [
          | inr differs ↦ differs
          | inl same ↦
              let equal : rank next ≡ rank name = ap rank ((text_eq_iff next name).0 same) in
              absurd (omega (arith, equal, below))
        ] in
        let onward = step ∙ rw other refl in
        elim (resolve_loop-ends f rank t next ranked (omega arith)) [
          | inl unknown ↦ inl (rw known (onward ∙ unknown))
          | inr (j, found, plain) ↦ inr (j, rw known (onward ∙ found), plain)
        ]
  ]
]
