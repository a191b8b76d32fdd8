-- ===== src/SymbolTable/Frames.antt =====
-- `FrameTable` of src/compiler/symboltable.hh: the tables of a module and its procedures. A method
-- on the null pointer, or on the top of an empty stack, has the outcome none.
pub mod Invariant
pub mod Steps
pub mod Scoping
use axcomp.Prelude.{
  ℕ, suc, Bool, List, [], ◌∷◌, ◌++◌, Option, none, some, get_elem?, length, Text, codes,
}
use axcomp.SymbolTable.Map.{lookup, insert}
use axcomp.SymbolTable.Store
use axcomp.SymbolTable.Store.{Store, Table}

pub record Frames {ℓ} (V : Type ℓ) : Type ℓ where
  pub tables : Store V
  pub frame_map : List (Text × ℕ)
  -- The head is the top of `frame_stack`.
  pub frame_stack : List ℕ
  pub current_table : Option ℕ

module _ {ℓ} {V : Type ℓ} where
  abbrev pub enter : ℕ → Frames V → Frames V
  enter i fr = record fr { frame_stack = i ∷ fr.frame_stack; current_table = some i }

  abbrev pub new_table : Option ℕ → Table V
  new_table next = record { table = []; next = next; free_variables = [] }

  -- A frame that is new: its table is nested in the current one.
  abbrev pub create : Text → Frames V → Frames V
  create name fr = record fr {
    tables = fr.tables ++ new_table fr.current_table ∷ [];
    frame_map = insert name (length fr.tables) fr.frame_map;
  }

  abbrev pub push_at : Text → Frames V → Option ℕ → Frames V
  push_at name fr (some i) = enter i fr
  push_at name fr none = enter (length fr.tables) (create name fr)

  -- `push_frame`: a name that has a frame already gets that frame again.
  unfoldable pub push_frame : Text → Frames V → Frames V
  push_frame name fr = push_at name fr (lookup name fr.frame_map)

  -- The constructor.
  unfoldable pub initial : Frames V
  unfolding push_frame
  initial =
      push_frame (codes ".")
        (record { tables = []; frame_map = []; frame_stack = []; current_table = none })

  abbrev pub pop_to : List ℕ → Frames V → Option (Frames V)
  pop_to [] fr = none
  pop_to (top ∷ []) fr = none
  pop_to (top ∷ i ∷ stack) fr = some (record fr { frame_stack = i ∷ stack; current_table = some i })

  -- `pop_frame`
  unfoldable pub pop_frame : Frames V → Option (Frames V)
  pop_frame fr = pop_to fr.frame_stack fr

  -- The methods that pass on to the current table.
  abbrev pub put_at : Option ℕ → Text → V → Frames V → Option (Frames V)
  put_at none name v fr = none
  put_at (some i) name v fr = some (record fr { tables = Store.put i name v fr.tables })

  unfoldable pub put : Text → V → Frames V → Option (Frames V)
  put name v fr = put_at fr.current_table name v fr

  abbrev pub with_tables {κ} :
      {A : Type κ} → Frames V → Option (A × Store V) → Option (A × Frames V)
  with_tables fr none = none
  with_tables fr (some (a, s)) = some (a, record fr { tables = s })

  abbrev pub find_at : Option ℕ → Text → Frames V → Option (Option V × Frames V)
  find_at none name fr = none
  find_at (some i) name fr = with_tables fr (Store.find (suc i) i name fr.tables)

  unfoldable pub find : Text → Frames V → Option (Option V × Frames V)
  find name fr = find_at fr.current_table name fr

  abbrev pub set_at : Option ℕ → Text → V → Frames V → Option (Bool × Frames V)
  set_at none name v fr = none
  set_at (some i) name v fr = with_tables fr (Store.set_value (suc i) i name v fr.tables)

  -- `set`
  unfoldable pub set_value : Text → V → Frames V → Option (Bool × Frames V)
  set_value name v fr = set_at fr.current_table name v fr

  abbrev pub changed_tables : Frames V → Option (Store V) → Option (Frames V)
  changed_tables fr none = none
  changed_tables fr (some s) = some (record fr { tables = s })

  abbrev pub remove_at : Option ℕ → Text → Frames V → Option (Frames V)
  remove_at none name fr = none
  remove_at (some i) name fr = changed_tables fr (Store.remove (suc i) i name fr.tables)

  unfoldable pub remove : Text → Frames V → Option (Frames V)
  remove name fr = remove_at fr.current_table name fr

  abbrev pub reset_at : Option ℕ → Frames V → Option (Frames V)
  reset_at none fr = none
  reset_at (some i) fr = changed_tables fr (Store.reset_free_variables (suc i) i fr.tables)

  unfoldable pub reset_free_variables : Frames V → Option (Frames V)
  reset_free_variables fr = reset_at fr.current_table fr

  abbrev free_of : Option (Table V) → Option (List Text)
  free_of none = none
  free_of (some t) = some t.free_variables

  abbrev pub free_at : Option ℕ → Frames V → Option (List Text)
  free_at none fr = none
  free_at (some i) fr = free_of (get_elem? fr.tables i)

  unfoldable pub get_free_variables : Frames V → Option (List Text)
  get_free_variables fr = free_at fr.current_table fr
