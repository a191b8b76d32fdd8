-- ===== src/Importer.antt =====
-- The importer: src/compiler/importer.cc, with the symbols of src/compiler/symbol.hh and
-- src/compiler/attr.hh. Reading a definition file is a parameter; symbols are shared objects, so
-- that the tables hold indices into the heap of symbols.
pub mod Paths
pub mod Transfer
use axcomp.Prelude.{
  ℕ, zero, suc, Bool, true, false, ◌||◌, List, [], ◌∷◌, ◌++◌, Option, none, some, get_elem?,
  if◌then◌else◌, ◌==◌, Text,
}
use axcomp.Attr.{Attr, global_var, insert_attr}
use axcomp.SymbolTable.Map.{lookup, insert}
use axcomp.SymbolTable.Store.{Table}
use axcomp.SymbolTable.Frames.{Frames, put}

-- `Symbol`, without the value of LLVM. A constant's value is a word of 64 bits.
pub record Symbol : Type 0 where
  pub type : Option ℕ
  pub attrs : List Attr
  pub const_value : Option ℕ

-- `Symbol::set`
abbrev pub set_attr : Attr → Symbol → Symbol
set_attr a s = record s { attrs = insert_attr a s.attrs }

abbrev pub Symbols : Type 0
Symbols = List Symbol

unfoldable pub set_at : ℕ → Attr → Symbols → Symbols
set_at i a [] = []
set_at zero a (s ∷ ss) = set_attr a s ∷ ss
set_at (suc i) a (s ∷ ss) = s ∷ set_at i a ss

-- `ASTQualident_::make_coded_id`
abbrev pub make_coded_id : Text → Text → Text
make_coded_id q i = q ++ b'_' ∷ i

-- `transfer_symbols` over the entries of the table that is current in the module's frames.
abbrev pub World : Type 0
World = Symbols × Frames ℕ

abbrev pub then_world {ℓ} : {A : Type ℓ} → Option A → (A → Option World) → Option World
then_world none k = none
then_world (some a) k = k a

unfoldable pub transfer_entries : Text → List (Text × ℕ) → World → Option World
transfer_entries m [] w = some w
transfer_entries m ((name, s) ∷ es) (symbols, to) =
    then_world (put (make_coded_id m name) s to)
      λ to'. transfer_entries m es (set_at s global_var symbols, to')

abbrev entries_of : Option (Table ℕ) → Option (List (Text × ℕ))
entries_of none = none
entries_of (some t) = some t.table

abbrev pub current_entries : Frames ℕ → Option (List (Text × ℕ))
current_entries from = elim from.current_table [
  | none ↦ none
  | some i ↦ entries_of (get_elem? from.tables i)
]

unfoldable pub transfer_symbols : Frames ℕ → Text → World → Option World
transfer_symbols from m w = then_world (current_entries from) λ es. transfer_entries m es w

-- `set_search_path`
abbrev pub push_item : Text → List Text → List Text
push_item [] ps = ps
push_item (c ∷ cs) ps = (c ∷ cs) ∷ ps

unfoldable pub items : Text → Text → List Text
items item [] = push_item item []
items item (c ∷ cs) =
    let next = items [] cs in
    let same = items (item ++ c ∷ []) cs in if c == b':' then push_item item next else same

unfoldable pub set_search_path : Text → List Text → List Text
set_search_path path paths = paths ++ items [] path
