-- ===== src/Tests/Rules.antt =====
-- The table of types at concrete inputs: src/compiler/typetable.cc.
use axcomp.Prelude.{
  ℕ, ◌≡◌, ◌⊎◌, inl, inr, refl, subst, arith, true, false, [], ◌∷◌, some, if◌then◌else◌, Text,
  text_eq, text_eq_iff, Bool-cases, codes,
}
use axcomp.Error.{ok}
use axcomp.Token.{TokenType, type_eq, plus, less, assign}
use axcomp.SymbolTable.Map.{lookup}
use axcomp.Types.{TypeId, simple, alias_of}
use axcomp.TypeTable.{TypeTable, find_rule, resolve_loop, initialise, check2}
use axcomp.TypeTable.Rules.{rules2, reg, int_type, bool_type, real_type, void_type}
use axcomp.TypeTable.Commutes.{
  is_relation, find_rule-registered, find_rule-commutes, find_rule-result,
}
use axcomp.TypeTable.Resolve.{IsEntry, IsRanked, Resolves, resolve_loop-ends}

-- LONGINT plus LONGREAL.
check2-plus : check2 5 initialise plus 10 12 ≡ ok (some real_type)
unfolding check2 axcomp.Types.Names.get_name initialise axcomp.TypeTable.resolve text_eq
    resolve_loop lookup axcomp.SymbolTable.Map.insert find_rule axcomp.Token.ordinal
check2-plus = refl

find_rule-registered_example : find_rule plus int_type real_type rules2 ≡ some real_type
find_rule-registered_example = find_rule-registered 1 (reg plus int_type real_type real_type) refl

find_rule-commutes_example :
    find_rule plus int_type real_type rules2 ≡ find_rule plus real_type int_type rules2
unfolding axcomp.Token.ordinal
find_rule-commutes_example = find_rule-commutes plus int_type real_type refl refl

find_rule-result_example :
    ((is_relation less ≡ true) × (bool_type ≡ bool_type))
    ⊎ ((type_eq less assign ≡ true) × (bool_type ≡ void_type))
    ⊎ ((is_relation less ≡ false)
        × ((bool_type ≡ int_type) ⊎ (bool_type ≡ real_type) ⊎ (bool_type ≡ real_type)))
unfolding find_rule axcomp.Token.ordinal
find_rule-result_example = find_rule-result less int_type real_type bool_type refl

-- A table of INTEGER and an alias of it.
abbrev small : TypeTable
small = record {
  types = (codes "A", 1) ∷ (codes "INTEGER", 0) ∷ [];
  heap = simple TypeId.integer (codes "INTEGER") ∷ alias_of (codes "A") 0 ∷ [];
}

abbrev rank : Text → ℕ
rank name = if text_eq (codes "A") name then 1 else 0

small-IsRanked : IsRanked rank small
unfolding lookup axcomp.Types.Names.get_name text_eq
small-IsRanked name i e = elim (Bool-cases (text_eq (codes "A") name)) [
  | inl alias ↦
      let index : 1 ≡ i = ground arith in
      subst (λ j. IsEntry rank small name j) index
        (subst (λ n. IsEntry rank small n 1) ((text_eq_iff (codes "A") name).0 alias)
          (inr (inr (0, codes "INTEGER", (codes "A", refl, refl), omega arith))))
  | inr other ↦
      let known : text_eq (codes "INTEGER") name ≡ true = ground arith in
      let index : 0 ≡ i = ground arith in
      subst (λ j. IsEntry rank small name j) index
        (inl (simple TypeId.integer (codes "INTEGER"), refl, refl))
]

resolve_loop-ends_example : Resolves small (resolve_loop 2 small (codes "A"))
unfolding text_eq
resolve_loop-ends_example = resolve_loop-ends 2 rank small (codes "A") small-IsRanked (omega arith)
