-- ===== src/SymbolTable/Store.antt =====
-- `SymbolTable` of src/compiler/symboltable.hh. The tables are objects behind shared pointers: here
-- an index into the store of all tables, in the order of their creation.
pub mod Chain
pub mod Find
pub mod Update
pub mod SetValue
pub mod Total
use axcomp.Prelude.{
  ℕ, zero, suc, Bool, true, false, List, [], ◌∷◌, Option, none, some, get_elem?, set, if◌then◌else◌,
  Text, ◌≡◌, ◌<◌,
}
use axcomp.SymbolTable.Map.{lookup, insert, erase, include}

-- The fields of a `SymbolTable`; `next` is none for the null pointer.
pub record Table {ℓ} (V : Type ℓ) : Type ℓ where
  pub table : List (Text × V)
  pub next : Option ℕ
  pub free_variables : List Text

abbrev pub Store {ℓ} : Type ℓ → Type ℓ
Store V = List (Table V)

-- `find` gives the value and the store, since it notes free variables. The outcome is none where
-- a pointer dangles or the fuel is short; so it is for `set`, which gives whether it found the name.
abbrev pub Found {ℓ} : Type ℓ → Type ℓ
Found V = Option (Option V × Store V)

abbrev pub SetOutcome {ℓ} : Type ℓ → Type ℓ
SetOutcome V = Option (Bool × Store V)

module _ {ℓ} {V : Type ℓ} where
  -- The store with the table `i`, if there is one, changed by `g`.
  unfoldable pub modify : ℕ → (Table V → Table V) → Store V → Store V
  modify i g [] = []
  modify zero g (t ∷ s) = g t ∷ s
  modify (suc i) g (t ∷ s) = t ∷ modify i g s

  abbrev pub add_free : Text → Table V → Table V
  add_free name t = record t { free_variables = include name t.free_variables }

  abbrev pub put_entry : Text → V → Table V → Table V
  put_entry name v t = record t { table = insert name v t.table }

  abbrev pub erase_entry : Text → Table V → Table V
  erase_entry name t = record t { table = erase name t.table }

  -- `put`
  unfoldable pub put : ℕ → Text → V → Store V → Store V
  put i name v s = modify i (put_entry name v) s

  -- `find`
  abbrev pub noted : ℕ → Text → Found V → Found V
  noted i name none = none
  noted i name (some (none, s)) = some (none, s)
  noted i name (some (some v, s)) = some (some v, modify i (add_free name) s)

  abbrev pub find_entry : (ℕ → Found V) → ℕ → Text → Store V → Option ℕ → Option V → Found V
  find_entry above i name s next (some v) = some (some v, s)
  find_entry above i name s none none = some (none, s)
  find_entry above i name s (some n) none = noted i name (above n)

  abbrev pub find_in : (ℕ → Found V) → ℕ → Text → Store V → Option (Table V) → Found V
  find_in above i name s none = none
  find_in above i name s (some t) = find_entry above i name s t.next (lookup name t.table)

  unfoldable pub find : ℕ → ℕ → Text → Store V → Found V
  find zero i name s = none
  find (suc f) i name s = find_in (λ n. find f n name s) i name s (get_elem? s i)

  -- `set`
  abbrev pub set_noted : ℕ → Text → SetOutcome V → SetOutcome V
  set_noted i name none = none
  set_noted i name (some (false, s)) = some (false, s)
  set_noted i name (some (true, s)) = some (true, modify i (add_free name) s)

  abbrev pub set_entry :
      (ℕ → SetOutcome V) → ℕ → Text → V → Store V → Option ℕ → Option V → SetOutcome V
  set_entry above i name v s next (some _) = some (true, put i name v s)
  set_entry above i name v s none none = some (false, s)
  set_entry above i name v s (some n) none = set_noted i name (above n)

  abbrev pub set_in : (ℕ → SetOutcome V) → ℕ → Text → V → Store V → Option (Table V) → SetOutcome V
  set_in above i name v s none = none
  set_in above i name v s (some t) = set_entry above i name v s t.next (lookup name t.table)

  unfoldable pub set_value : ℕ → ℕ → Text → V → Store V → SetOutcome V
  set_value zero i name v s = none
  set_value (suc f) i name v s = set_in (λ n. set_value f n name v s) i name v s (get_elem? s i)

  -- `remove`
  abbrev pub remove_entry :
      (ℕ → Option (Store V)) → ℕ → Text → Store V → Option ℕ → Option V → Option (Store V)
  remove_entry above i name s next (some _) = some (modify i (erase_entry name) s)
  remove_entry above i name s none none = some s
  remove_entry above i name s (some n) none = above n

  abbrev pub remove_in :
      (ℕ → Option (Store V)) → ℕ → Text → Store V → Option (Table V) → Option (Store V)
  remove_in above i name s none = none
  remove_in above i name s (some t) = remove_entry above i name s t.next (lookup name t.table)

  unfoldable pub remove : ℕ → ℕ → Text → Store V → Option (Store V)
  remove zero i name s = none
  remove (suc f) i name s = remove_in (λ n. remove f n name s) i name s (get_elem? s i)

  -- `reset_free_variables`
  abbrev pub clear_free : Table V → Table V
  clear_free t = record t { free_variables = [] }

  abbrev pub reset_above : (ℕ → Option (Store V)) → Store V → Option ℕ → Option (Store V)
  reset_above above s none = some s
  reset_above above s (some n) = above n

  abbrev pub reset_in :
      (ℕ → Store V → Option (Store V)) → ℕ → Store V → Option (Table V) → Option (Store V)
  reset_in above i s none = none
  reset_in above i s (some t) =
      let cleared = modify i clear_free s in reset_above (λ n. above n cleared) cleared t.next

  unfoldable pub reset_free_variables : ℕ → ℕ → Store V → Option (Store V)
  reset_free_variables zero i s = none
  reset_free_variables (suc f) i s = reset_in (reset_free_variables f) i s (get_elem? s i)
