-- ===== src/Inspector/Modules.antt =====
-- The modules that a module imports: `find_module` of src/compiler/importer.cc, which the inspector
-- calls with its tables.
use axcomp.Prelude.{ℕ, Bool, true, false, List, ◌++◌, Option, none, some, Text}
use axcomp.Error.{Result, ok, err, out_of_fuel, null_pointer}
use axcomp.SymbolTable.Map.{lookup, insert}
use axcomp.SymbolTable.Frames.{Frames}
use axcomp.TypeTable.{TypeTable}
use axcomp.Importer.{Symbols, World, transfer_symbols}
use axcomp.Inspector.State.{Complaint, State, Inspect, ◌>>=◌, ◌>>◌, pure, gets, change, on_option}

-- What comes of the search for a definition file: there is none, an exception is thrown, or the frames
-- of the module that the file declares.
pub data Found : Type 0 where
  absent refused : Found
  read : Frames ℕ → Found

-- `read_module` has tables of symbols of its own, so that of the state of its caller it has the
-- types, the objects of symbols, the cache, and the list of errors, which can only be added to.
pub record Reading : Type 0 where
  pub found : Found
  pub added : List Complaint
  pub types : TypeTable
  pub store : Symbols
  pub cache : List (Text × Frames ℕ)

-- The definition files as `read_module` reads them.
abbrev pub Reader : Type 0
Reader = Text → TypeTable → Symbols → List (Text × Frames ℕ) → Result Reading

abbrev pub frames_found : Found → Option (Option (Frames ℕ))
frames_found absent = some none
frames_found refused = none
frames_found (read fr) = some (some fr)

abbrev pub after_reading : State → Reading → State
after_reading s r = record s {
  errors = s.errors ++ r.added;
  types = r.types;
  store = r.store;
  cache = r.cache;
}

abbrev pub with_reading : State → Result Reading → Result (Option (Option (Frames ℕ)) × State)
with_reading s (ok r) = ok (frames_found r.found, after_reading s r)
with_reading s (err e) = err e
with_reading s out_of_fuel = out_of_fuel

unfoldable pub read_module : Reader → Text → Inspect (Option (Frames ℕ))
read_module reader name s = with_reading s (reader name s.types s.store s.cache)

abbrev pub with_world : State → Option World → Result (Option (Unit {0}) × State)
with_world s none = err null_pointer
with_world s (some (symbols, to)) = ok (some tt, record s { store = symbols; symbols = to })

unfoldable pub transfer : Frames ℕ → Text → Inspect (Unit {0})
transfer from name s = with_world s (transfer_symbols from name (s.store, s.symbols))

unfoldable pub find_module : Reader → Text → Inspect Bool
find_module reader name = gets (λ s. lookup name s.cache) >>= λ known.
    on_option known
      (read_module reader name >>= λ file. on_option file (pure false) λ from. do
        transfer from name
        change λ s. record s { cache = insert name from s.cache }
        pure true)
      (λ from. transfer from name >> pure true)
