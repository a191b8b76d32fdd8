-- ===== src/TypeTable.antt =====
-- `TypeTable`: src/compiler/typetable.hh and src/compiler/typetable.cc. The table has no parent, so
-- that `find` is the lookup in its own map.
pub mod Rules
pub mod Commutes
pub mod Resolve
use axcomp.Prelude.{
  ℕ, zero, suc, Bool, true, false, ◌||◌, ◌&&◌, List, [], ◌∷◌, Option, none, some, get_elem?, length,
  if◌then◌else◌, ◌==◌, Text, text_eq, codes,
}
use axcomp.Error.{Result, ok, err, out_of_fuel, null_pointer, ◌>>=◌}
use axcomp.Token.{TokenType, type_eq, assign, equals, hash}
use axcomp.SymbolTable.Map.{lookup, insert}
use axcomp.Types.{TypeId, TypeNode, Heap, type_id, id_eq, simple, alias_of}
use axcomp.Types.Equiv.{equiv}
use axcomp.Types.Names.{get_name}
use axcomp.TypeTable.Rules.{
  TypeRule1, TypeRule2, int_type, bool_type, real_type, char_type, str_type, str1_type, set_type,
  void_type, any_type, rules1, rules2,
}

-- The names that are put into the table, with the heap of the objects.
pub record TypeTable : Type 0 where
  pub types : List (Text × ℕ)
  pub heap : Heap

abbrev pub put_types : List (Text × ℕ) → List (Text × ℕ) → List (Text × ℕ)
put_types [] m = m
put_types ((name, t) ∷ ts) m = put_types ts (insert name t m)

-- `initialise`: the standard types, and the aliases for compatibility.
unfoldable pub initialise : TypeTable
initialise = record {
  types =
      put_types
        ((codes "INTEGER", int_type)
          ∷ (codes "BOOLEAN", bool_type)
          ∷ (codes "REAL", real_type)
          ∷ (codes "CHAR", char_type)
          ∷ (codes "STRING", str_type)
          ∷ (codes "STRING1", str1_type)
          ∷ (codes "SET", set_type)
          ∷ (codes "void", void_type)
          ∷ (codes "any", any_type)
          ∷ (codes "SHORTINT", 9)
          ∷ (codes "LONGINT", 10)
          ∷ (codes "HUGEINT", 11)
          ∷ (codes "LONGREAL", 12)
          ∷ [])
        [];
  heap =
      simple TypeId.integer (codes "INTEGER")
      ∷ simple TypeId.boolean (codes "BOOLEAN")
      ∷ simple TypeId.real (codes "REAL")
      ∷ simple TypeId.char (codes "CHAR")
      ∷ simple TypeId.string (codes "STRING")
      ∷ simple TypeId.str1 (codes "STRING1")
      ∷ simple TypeId.set (codes "SET")
      ∷ simple TypeId.void (codes "void")
      ∷ simple TypeId.any (codes "any")
      ∷ alias_of (codes "SHORTINT") int_type
      ∷ alias_of (codes "LONGINT") int_type
      ∷ alias_of (codes "HUGEINT") int_type
      ∷ alias_of (codes "LONGREAL") real_type
      ∷ [];
}

-- `get_name`, with fuel for types that lie within each other no deeper than there are types.
abbrev pub name_of : TypeTable → ℕ → Result Text
name_of t i = get_name (suc (length t.heap)) t.heap i

-- `resolve`: none is the null pointer. A turn of the loop takes a unit of fuel.
abbrev pub resolve_node :
    (Text → Result (Option ℕ)) → TypeTable → Text → ℕ → Option TypeNode → Result (Option ℕ)
resolve_node loop t name i none = err null_pointer
resolve_node loop t name i (some (alias_of n a)) =
    name_of t a >>= λ next. let rest = loop next in if text_eq next name then ok (some a) else rest
resolve_node loop t name i (some _) = ok (some i)

abbrev pub resolve_found :
    (Text → Result (Option ℕ)) → TypeTable → Text → Option ℕ → Result (Option ℕ)
resolve_found loop t name none = ok none
resolve_found loop t name (some i) = resolve_node loop t name i (get_elem? t.heap i)

unfoldable pub resolve_loop : ℕ → TypeTable → Text → Result (Option ℕ)
resolve_loop zero t name = out_of_fuel
resolve_loop (suc f) t name = resolve_found (resolve_loop f t) t name (lookup name t.types)

unfoldable pub resolve : ℕ → TypeTable → Text → Result (Option ℕ)
resolve f t name =
    if text_eq name (codes "CHAR[]") then ok (some str_type) else resolve_loop f t name

-- `check` of one argument, and the loop of `check` over the rules of two.
unfoldable pub check1 : TokenType → ℕ → List TypeRule1 → Option ℕ
check1 op type [] = none
check1 op type (r ∷ rs) =
    let rest = check1 op type rs in
    if type_eq r.op op && r.value == type then some r.result else rest

unfoldable pub find_rule : TokenType → ℕ → ℕ → List TypeRule2 → Option ℕ
find_rule op left right [] = none
find_rule op left right (r ∷ rs) =
    let rest = find_rule op left right rs in
    if type_eq r.op op && r.left == left && r.right == right then some r.result else rest

abbrev pub rule_for : TokenType → Option ℕ → Option ℕ → Option ℕ
rule_for op none right = none
rule_for op (some left) none = none
rule_for op (some left) (some right) = find_rule op left right rules2

-- `t->id == id`
abbrev pub node_has_id : Option TypeNode → TypeId → Result Bool
node_has_id none i = err null_pointer
node_has_id (some n) i = ok (id_eq (type_id n) i)

abbrev pub has_id : Heap → Option ℕ → TypeId → Result Bool
has_id h none i = err null_pointer
has_id h (some t) i = node_has_id (get_elem? h t) i

abbrev pub and_then : Result Bool → Result Bool → Result Bool
and_then r s = r >>= λ b. if b then s else ok false

abbrev pub equiv_of : ℕ → Heap → Option ℕ → Option ℕ → Result Bool
equiv_of f h (some l) (some r) = equiv f h l r
equiv_of f h _ _ = err null_pointer

-- What no rule has: `NIL` with pointers, and enumerations.
abbrev pub nil_pointer : Heap → Option ℕ → Option ℕ → Result Bool
nil_pointer h l r = and_then (has_id h l TypeId.pointer) (has_id h r TypeId.void)

abbrev pub enumerations : ℕ → Heap → Option ℕ → Option ℕ → Result Bool
enumerations f h l r =
    and_then (has_id h l TypeId.enumeration)
      (and_then (has_id h r TypeId.enumeration) (equiv_of f h l r))

-- Whether `=` and `#` take the two types.
abbrev pub comparable : ℕ → Heap → Option ℕ → Option ℕ → Result Bool
comparable f h l r = nil_pointer h l r >>= λ nil. if nil then ok true else enumerations f h l r

abbrev pub if_so : ℕ → Result Bool → Result (Option ℕ) → Result (Option ℕ)
if_so type r rest = r >>= λ b. if b then ok (some type) else rest

abbrev pub check_rest : ℕ → Heap → TokenType → Option ℕ → Option ℕ → Result (Option ℕ)
check_rest f h op l r =
    if_so void_type (if type_eq op assign then nil_pointer h l r else ok false) (
      if_so bool_type
        (if type_eq op equals || type_eq op hash then comparable f h l r else ok false) (ok none))

abbrev pub rule_or : Option ℕ → Result (Option ℕ) → Result (Option ℕ)
rule_or (some t) rest = ok (some t)
rule_or none rest = rest

-- `check` of two arguments; none is the null pointer.
unfoldable pub check2 : ℕ → TypeTable → TokenType → ℕ → ℕ → Result (Option ℕ)
check2 f t op left right = name_of t left >>= λ ln. resolve f t ln >>= λ l.
    name_of t right >>= λ rn.
    resolve f t rn >>= λ r. rule_or (rule_for op l r) (check_rest f t.heap op l r)
