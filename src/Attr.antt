-- ===== src/Attr.antt =====
-- The attributes of symbols and identifiers: src/compiler/attr.hh.
use axcomp.Prelude.{ℕ, Bool, false, ◌||◌, List, [], ◌∷◌, if◌then◌else◌, ◌==◌, Text, codes}

-- `enum class Attr`
pub data Attr : Type 0 where
  null var global read_only cnst ptr used global_function compile_function : Attr
  closure global_var free_var local_var modified : Attr

unfoldable pub ordinal : Attr → ℕ
ordinal null = 0
ordinal var = 1
ordinal global = 2
ordinal read_only = 3
ordinal cnst = 4
ordinal ptr = 5
ordinal used = 6
ordinal global_function = 7
ordinal compile_function = 8
ordinal closure = 9
ordinal global_var = 10
ordinal free_var = 11
ordinal local_var = 12
ordinal modified = 13

-- `contains` of a set of attributes
unfoldable pub has_attr : Attr → List Attr → Bool
unfolding ordinal
has_attr a [] = false
has_attr a (b ∷ s) = ordinal b == ordinal a || has_attr a s

-- `Attrs::set`
abbrev pub insert_attr : Attr → List Attr → List Attr
insert_attr a s = if has_attr a s then s else a ∷ s

-- `Attrs::operator std::string`
unfoldable pub attrs_text : List Attr → Text
attrs_text s =
    if has_attr global s then codes "*" else if has_attr read_only s then codes "-" else []
