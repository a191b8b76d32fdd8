-- ===== src/Inspector/Keeps/Modules.antt =====
-- What `find_module` of src/compiler/importer.cc keeps, whatever the definition files are.
use axcomp.Prelude.{
  ℕ, ◌≡◌, refl, sym, subst, ◌∙◌, append-nil, List, [], ◌∷◌, Option, none, some, Text,
}
use axcomp.Error.{Result, ok, err, out_of_fuel}
use axcomp.SymbolTable.Map.{insert}
use axcomp.SymbolTable.Frames
use axcomp.SymbolTable.Frames.{Frames}
use axcomp.SymbolTable.Frames.Invariant.{IsValid}
use axcomp.Attr.{global_var}
use axcomp.Importer.{
  World, set_at, make_coded_id, then_world, transfer_entries, current_entries, transfer_symbols,
}
use axcomp.Inspector.State.{State, change}
use axcomp.Inspector.Modules.{
  Reading, Reader, with_reading, read_module, with_world, transfer, find_module,
}
use axcomp.Inspector.Keeps.{Keeps, Later, Later-same, Leaves, leaves, faults, unfinished}
use axcomp.Inspector.Keeps.Tables.{keeps_rules, put-moved, Keeps-change}

-- The frames have the stack of before, and are valid where they were.
Moved : Frames ℕ → Frames ℕ → Type 0
Moved fr fr' = (fr'.frame_stack ≡ fr.frame_stack) × (IsValid fr → IsValid fr')

transfer_entries-Moved :
    (m : Text) (es : List (Text × ℕ)) (w w' : World)
    → transfer_entries m es w ≡ some w'
    → Moved w.1 w'.1
unfolding transfer_entries Moved
transfer_entries-Moved m [] w w' e =
    let same : w ≡ w' = cc e in subst {A = World} (λ v. Moved w.1 v.1) same (refl, λ k. k)
transfer_entries-Moved m ((name, i) ∷ es) (symbols, to) w' e =
    after (λ to'. transfer_entries-Moved m es (set_at i global_var symbols, to') w')
      (Frames.put (make_coded_id m name) i to) refl e
  where
    after :
        ((to' : Frames ℕ)
          → transfer_entries m es (set_at i global_var symbols, to') ≡ some w'
          → Moved to' w'.1)
        → (o : Option (Frames ℕ)) → Frames.put (make_coded_id m name) i to ≡ o
        → then_world o (λ to'. transfer_entries m es (set_at i global_var symbols, to')) ≡ some w'
        → Moved to w'.1
    after rest none h g = cc
    after rest (some to') h g =
        let (stack, valid) = put-moved (make_coded_id m name) i to to' h in
        let (stack', valid') = rest to' g in (stack' ∙ stack, λ k. valid' (valid k))

transfer-Keeps : (from : Frames ℕ) (name : Text) → Keeps (transfer from name)
unfolding transfer transfer_symbols Moved
transfer-Keeps from name = record { at = λ s. by_entries s (current_entries from) }
  where
    by_world :
        (s : State) (es : List (Text × ℕ)) (o : Option World)
        → transfer_entries name es (s.store, s.symbols) ≡ o
        → Leaves (Later s) (with_world s o)
    by_world s es none e = faults
    by_world s es (some (store, fr)) e =
        let (stack, valid) = transfer_entries-Moved name es (s.store, s.symbols) (store, fr) e in
        leaves (record {
          added = [];
          errors = sym (append-nil s.errors);
          last_proc = refl;
          variable_type = refl;
          frame_stack = stack;
          valid = valid;
        })

    by_entries :
        (s : State) (o : Option (List (Text × ℕ)))
        → Leaves
            (Later s)
            (with_world s (then_world o λ es. transfer_entries name es (s.store, s.symbols)))
    by_entries s none = faults
    by_entries s (some es) = by_world s es (transfer_entries name es (s.store, s.symbols)) refl

read_module-Keeps : (reader : Reader) (name : Text) → Keeps (read_module reader name)
unfolding read_module
read_module-Keeps reader name = record {
  at = λ s. by_result s (reader name s.types s.store s.cache);
}
  where
    by_result : (s : State) (r : Result Reading) → Leaves (Later s) (with_reading s r)
    by_result s (ok r) = leaves (record {
      added = r.added;
      errors = refl;
      last_proc = refl;
      variable_type = refl;
      frame_stack = refl;
      valid = λ k. k;
    })
    by_result s (err e) = faults
    by_result s out_of_fuel = unfinished

cache-Keeps :
    (name : Text) (from : Frames ℕ)
    → Keeps (change λ s. record s { cache = insert name from s.cache })
cache-Keeps name from = Keeps-change _ λ s. Later-same s _ refl refl refl refl

pub find_module-Keeps : (reader : Reader) (name : Text) → Keeps (find_module reader name)
unfolding find_module
find_module-Keeps reader name =
    search (keeps_rules, read_module-Keeps, transfer-Keeps, cache-Keeps) depth 12
