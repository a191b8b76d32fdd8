-- ===== src/Inspector/State.antt =====
-- What `Inspector` of src/compiler/inspector.hh works on, and the calls that it makes of the tables.
use axcomp.Prelude.{ℕ, Bool, List, [], ◌∷◌, ◌++◌, Option, none, some, get_elem?, length, Text}
use axcomp.Error.{Error, Result, ok, err, out_of_fuel, null_pointer}
use axcomp.Error
use axcomp.Token.{TokenType}
use axcomp.Attr.{Attr}
use axcomp.SymbolTable.Map.{lookup, insert}
use axcomp.SymbolTable.Frames
use axcomp.SymbolTable.Frames.{Frames}
use axcomp.Types.{TypeNode, Heap}
use axcomp.TypeTable
use axcomp.TypeTable.{TypeTable, name_of}
use axcomp.Importer
use axcomp.Importer.{Symbol, Symbols}
use axcomp.Ast.Decl.{AstProc}

-- The errors that are collected, by their message; of its arguments the names of the program.
pub data Complaint : Type 0 where
  module_not_found const_not_constant const_read_only type_defined type_not_found : Text → Complaint
  bound_type_not_found bound_type_not_record procedure_defined : Text → Complaint
  procedure_read_only assign_const assign_read_only assign_types : Text → Complaint
  return_type undefined_procedure not_procedure base_type : Text → Complaint
  argument_count no_reference argument_type : Text → Complaint
  cast_type for_index_undefined for_index_type not_indexable : Text → Complaint
  index_count no_field not_pointer unknown_type base_not_found base_not_record : Text → Complaint
  field_defined enumeration_defined undefined_identifier undefined_in_module : Text → Complaint
  identifier_type : Text → Complaint
  operator_types : TokenType → Complaint
  array_constant array_numeric array_integer : ℕ → Complaint
  cast_arguments cast_value if_boolean elsif_boolean case_type case_label : Complaint
  case_first case_last for_start for_end for_by while_boolean repeat_boolean : Complaint
  not_boolean value_not_indexable value_not_record set_element : Complaint

-- `Inspector`, with the tables and the list of errors that it has references of. A symbol is an index
-- into the heap of symbols, a type one into the heap of types, and none the null pointer.
-- `closures` has the free variables that are noted with a procedure of the syntax tree, and `cache` is
-- that of the importer.
pub record State : Type 0 where
  pub symbols : Frames ℕ
  pub store : Symbols
  pub types : TypeTable
  pub errors : List Complaint
  pub is_const : Bool
  pub is_lvalue : Bool
  pub is_qualid : Bool
  pub qualid_error : Bool
  pub last_type : Option ℕ
  pub last_proc : Option AstProc
  pub variable_type : Attr
  pub pointer_types : List ℕ
  pub closures : List (Text × List (Text × List Attr))
  pub cache : List (Text × Frames ℕ)

-- The outcome none is a `TypeError` on its way, with what was changed before it.
abbrev pub Inspect : Type 0 → Type 0
Inspect A = State → Result (Option A × State)

abbrev pub go_on : {A B : Type 0} → (A → Inspect B) → Option A × State → Result (Option B × State)
go_on k (none, s) = ok (none, s)
go_on k (some a, s) = k a s

infixl 5 ◌>>=◌ ◌>>◌
unfoldable pub ◌>>=◌ : {A B : Type 0} → Inspect A → (A → Inspect B) → Inspect B
(m >>= k) s = Error.◌>>=◌ (m s) (go_on k)

abbrev pub ◌>>◌ : {A B : Type 0} → Inspect A → Inspect B → Inspect B
m >> k = m >>= λ _. k

unfoldable pub pure : {A : Type 0} → A → Inspect A
pure a s = ok (some a, s)

unfoldable pub done : Inspect (Unit {0})
done s = ok (some tt, s)

-- What the state has, and a change of the flags.
unfoldable pub gets : {A : Type 0} → (State → A) → Inspect A
gets g s = ok (some (g s), s)

unfoldable pub change : (State → State) → Inspect (Unit {0})
change g s = ok (some tt, g s)

unfoldable pub fault : {A : Type 0} → Inspect A
fault s = err null_pointer

-- `errors.add`, and `throw`, where the message reaches the user only if it is not caught.
unfoldable pub complain : Complaint → Inspect (Unit {0})
complain c s = ok (some tt, record s { errors = s.errors ++ c ∷ [] })

unfoldable pub raise : {A : Type 0} → Inspect A
raise s = ok (none, s)

unfoldable pub complain_if : Bool → Complaint → Inspect (Unit {0})
complain_if Bool.true c = complain c
complain_if Bool.false c = done

-- The two branches on a pointer.
unfoldable pub on_option : {A B : Type 0} → Option A → Inspect B → (A → Inspect B) → Inspect B
on_option none m k = m
on_option (some a) m k = k a

-- A call that reads the tables only.
abbrev pub with_state : {A : Type 0} → State → Result A → Result (Option A × State)
with_state s (ok a) = ok (some a, s)
with_state s (err e) = err e
with_state s out_of_fuel = out_of_fuel

unfoldable pub reading : {A : Type 0} → (State → Result A) → Inspect A
reading g s = with_state s (g s)

-- A pointer that is followed.
unfoldable pub deref : {A : Type 0} → Option A → Inspect A
deref none = fault
deref (some a) = pure a

-- The methods of the table of symbols.
abbrev pub found_in : State → Option (Option ℕ × Frames ℕ) → Result (Option (Option ℕ) × State)
found_in s none = err null_pointer
found_in s (some (o, fr)) = ok (some o, record s { symbols = fr })

unfoldable pub find : Text → Inspect (Option ℕ)
find name s = found_in s (Frames.find name s.symbols)

abbrev pub with_frames : State → Option (Frames ℕ) → Result (Option (Unit {0}) × State)
with_frames s none = err null_pointer
with_frames s (some fr) = ok (some tt, record s { symbols = fr })

unfoldable pub put : Text → ℕ → Inspect (Unit {0})
put name i s = with_frames s (Frames.put name i s.symbols)

unfoldable pub push_frame : Text → Inspect (Unit {0})
push_frame name s = ok (some tt, record s { symbols = Frames.push_frame name s.symbols })

unfoldable pub pop_frame : Inspect (Unit {0})
pop_frame s = with_frames s (Frames.pop_frame s.symbols)

unfoldable pub reset_free_variables : Inspect (Unit {0})
reset_free_variables s = with_frames s (Frames.reset_free_variables s.symbols)

unfoldable pub get_free_variables : Inspect (List Text)
get_free_variables = gets (λ s. Frames.get_free_variables s.symbols) >>= deref

-- The object of a symbol; `mkSym`, and `Symbol::set`.
unfoldable pub symbol : ℕ → Inspect Symbol
symbol i = gets (λ s. get_elem? s.store i) >>= deref

unfoldable pub new_symbol : Symbol → Inspect ℕ
new_symbol v s = ok (some (length s.store), record s { store = s.store ++ v ∷ [] })

unfoldable pub make_symbol : Option ℕ → Attr → Inspect ℕ
make_symbol t a = new_symbol (record { type = t; attrs = a ∷ []; const_value = none })

unfoldable pub mark : ℕ → Attr → Inspect (Unit {0})
mark i a = change λ s. record s { store = Importer.set_at i a s.store }

-- The object of a type, one that is new, and one that is changed.
unfoldable pub node : ℕ → Inspect TypeNode
node t = gets (λ s. get_elem? s.types.heap t) >>= deref

abbrev pub with_heap : (Heap → Heap) → State → State
with_heap g s = record s { types = record { types = s.types.types; heap = g s.types.heap } }

unfoldable pub new_type : TypeNode → Inspect ℕ
new_type n s = ok (some (length s.types.heap), with_heap (λ h. h ++ n ∷ []) s)

unfoldable pub update : ℕ → (TypeNode → TypeNode) → Heap → Heap
update i g [] = []
update ℕ.zero g (n ∷ h) = g n ∷ h
update (ℕ.suc i) g (n ∷ h) = n ∷ update i g h

unfoldable pub change_type : ℕ → (TypeNode → TypeNode) → Inspect (Unit {0})
change_type i g = change (with_heap (update i g))

unfoldable pub get_name : ℕ → Inspect Text
get_name t = reading λ s. name_of s.types t

-- `find`, `put` and `resolve` of the table of types.
unfoldable pub find_type : Text → Inspect (Option ℕ)
find_type name = gets λ s. lookup name s.types.types

unfoldable pub put_type : Text → ℕ → Inspect (Unit {0})
put_type name t =
    change
      λ s. record s { types = record { types = insert name t s.types.types; heap = s.types.heap } }

unfoldable pub resolve : ℕ → Text → Inspect (Option ℕ)
resolve f name = reading λ s. TypeTable.resolve f s.types name

-- The flags.
unfoldable pub set_last : Option ℕ → Inspect (Unit {0})
set_last t = change λ s. record s { last_type = t }

unfoldable pub set_const : Bool → Inspect (Unit {0})
set_const b = change λ s. record s { is_const = b }

unfoldable pub set_lvalue : Bool → Inspect (Unit {0})
set_lvalue b = change λ s. record s { is_lvalue = b }

unfoldable pub last : Inspect (Option ℕ)
last = gets λ s. s.last_type

-- `last_type->`
unfoldable pub last_followed : Inspect ℕ
last_followed = last >>= deref
