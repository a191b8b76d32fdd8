-- ===== src/Inspector/Keeps/Tables.antt =====
-- What the calls of the tables keep that `Inspector` makes: src/compiler/inspector.cc and
-- src/compiler/symboltable.hh.
use axcomp.Prelude.{ℕ, ◌≡◌, refl, sym, ap, [], append-nil, Option, none, some, Text, Bool}
use axcomp.Attr.{Attr}
use axcomp.SymbolTable.Store
use axcomp.SymbolTable.Store.{Store}
use axcomp.SymbolTable.Frames
use axcomp.SymbolTable.Frames.{Frames}
use axcomp.SymbolTable.Frames.Invariant.{IsValid}
use axcomp.SymbolTable.Frames.Steps.{Runs-IsValid, find-Runs, put-Runs, reset-Runs}
use axcomp.Types.{TypeNode}
use axcomp.Importer.{Symbol}
use axcomp.Inspector.State.{
  State, change, found_in, find, put, with_frames, reset_free_variables, get_free_variables, symbol,
  new_symbol, make_symbol, mark, node, new_type, change_type, get_name, find_type, put_type,
  resolve, set_last, set_const, set_lvalue, last, last_followed,
}
use axcomp.Inspector.Keeps.{Later, Later-same, Leaves, leaves, faults, Keeps, plain_rules}

-- Other frames, with the same stack, that are valid where the frames were.
pub moved :
    (s : State) (fr : Frames ℕ)
    → fr.frame_stack ≡ s.symbols.frame_stack
    → (IsValid s.symbols → IsValid fr)
    → Later s (record s { symbols = fr })
moved s fr e k = record {
  added = [];
  errors = sym (append-nil s.errors);
  last_proc = refl;
  variable_type = refl;
  frame_stack = e;
  valid = k;
}

pub Keeps-find : (name : Text) → Keeps (find name)
unfolding find Frames.find
Keeps-find name = record { at = λ s. at_table s s.symbols.current_table refl }
  where
    by_tables :
        (s : State) (r : Option (Option ℕ × Store ℕ))
        → Frames.find name s.symbols ≡ Frames.with_tables s.symbols r
        → Leaves (Later s) (found_in s (Frames.with_tables s.symbols r))
    by_tables s none e = faults
    by_tables s (some (o, ts)) e =
        let fr : Frames ℕ = record s.symbols { tables = ts } in
        leaves (
          moved s fr refl (λ k.
            Runs-IsValid (λ r. r.1) (Frames.find name s.symbols) (o, fr)
              (find-Runs name s.symbols k) e))

    at_table :
        (s : State) (i : Option ℕ)
        → Frames.find name s.symbols ≡ Frames.find_at i name s.symbols
        → Leaves (Later s) (found_in s (Frames.find_at i name s.symbols))
    at_table s none e = faults
    at_table s (some i) e = by_tables s (Store.find (ℕ.suc i) i name s.symbols.tables) e

-- `put` keeps the stack, and valid frames valid.
pub put-moved :
    (name : Text) (i : ℕ) (fr fr' : Frames ℕ)
    → Frames.put name i fr ≡ some fr'
    → (fr'.frame_stack ≡ fr.frame_stack) × (IsValid fr → IsValid fr')
unfolding Frames.put
put-moved name i fr fr' e = (
  at_table fr.current_table e,
  λ k. Runs-IsValid (λ r. r) (Frames.put name i fr) fr' (put-Runs name i fr k) e,
)
  where
    at_table :
        (t : Option ℕ) → Frames.put_at t name i fr ≡ some fr' → fr'.frame_stack ≡ fr.frame_stack
    at_table none e = cc
    at_table (some t) e =
        let fr1 : Frames ℕ = record fr { tables = Store.put t name i fr.tables } in
        let same : fr1 ≡ fr' = cc in sym (ap (λ r. r.frame_stack) same)

pub Keeps-put : (name : Text) (i : ℕ) → Keeps (put name i)
unfolding put
Keeps-put name i = record { at = λ s. by_frames s (Frames.put name i s.symbols) refl }
  where
    by_frames :
        (s : State) (o : Option (Frames ℕ))
        → Frames.put name i s.symbols ≡ o
        → Leaves (Later s) (with_frames s o)
    by_frames s none e = faults
    by_frames s (some fr) e =
        let (stack, valid) = put-moved name i s.symbols fr e in leaves (moved s fr stack valid)

pub Keeps-reset_free_variables : Keeps reset_free_variables
unfolding reset_free_variables Frames.reset_free_variables
Keeps-reset_free_variables = record { at = λ s. at_table s s.symbols.current_table refl }
  where
    by_tables :
        (s : State) (r : Option (Store ℕ))
        → Frames.reset_free_variables s.symbols ≡ Frames.changed_tables s.symbols r
        → Leaves (Later s) (with_frames s (Frames.changed_tables s.symbols r))
    by_tables s none e = faults
    by_tables s (some ts) e =
        let fr : Frames ℕ = record s.symbols { tables = ts } in
        leaves (
          moved s fr refl (λ k.
            Runs-IsValid (λ r. r) (Frames.reset_free_variables s.symbols) fr
              (reset-Runs s.symbols k) e))

    at_table :
        (s : State) (t : Option ℕ)
        → Frames.reset_free_variables s.symbols ≡ Frames.reset_at t s.symbols
        → Leaves (Later s) (with_frames s (Frames.reset_at t s.symbols))
    at_table s none e = faults
    at_table s (some t) e = by_tables s (Store.reset_free_variables (ℕ.suc t) t s.symbols.tables) e

pub Keeps-get_free_variables : Keeps get_free_variables
unfolding get_free_variables
Keeps-get_free_variables = search plain_rules

pub Keeps-symbol : (i : ℕ) → Keeps (symbol i)
unfolding symbol
Keeps-symbol i = search plain_rules

pub Keeps-node : (t : ℕ) → Keeps (node t)
unfolding node
Keeps-node t = search plain_rules

pub Keeps-last : Keeps last
unfolding last
Keeps-last = search plain_rules

pub Keeps-last_followed : Keeps last_followed
unfolding last_followed
Keeps-last_followed = search (plain_rules, Keeps-last)

pub Keeps-get_name : (t : ℕ) → Keeps (get_name t)
unfolding get_name
Keeps-get_name t = search plain_rules

pub Keeps-find_type : (name : Text) → Keeps (find_type name)
unfolding find_type
Keeps-find_type name = search plain_rules

pub Keeps-resolve : (f : ℕ) (name : Text) → Keeps (resolve f name)
unfolding resolve
Keeps-resolve f name = search plain_rules

pub Keeps-change : (g : State → State) → ((s : State) → Later s (g s)) → Keeps (change g)
unfolding change
Keeps-change g h = record { at = λ s. leaves (h s) }

pub Keeps-new_symbol : (v : Symbol) → Keeps (new_symbol v)
unfolding new_symbol
Keeps-new_symbol v = record { at = λ s. leaves (Later-same s _ refl refl refl refl) }

pub Keeps-make_symbol : (t : Option ℕ) (a : Attr) → Keeps (make_symbol t a)
unfolding make_symbol
Keeps-make_symbol t a = Keeps-new_symbol _

pub Keeps-new_type : (n : TypeNode) → Keeps (new_type n)
unfolding new_type
Keeps-new_type n = record { at = λ s. leaves (Later-same s _ refl refl refl refl) }

pub Keeps-mark : (i : ℕ) (a : Attr) → Keeps (mark i a)
unfolding mark
Keeps-mark i a = Keeps-change _ λ s. Later-same s _ refl refl refl refl

pub Keeps-change_type : (i : ℕ) (g : TypeNode → TypeNode) → Keeps (change_type i g)
unfolding change_type
Keeps-change_type i g = Keeps-change _ λ s. Later-same s _ refl refl refl refl

pub Keeps-put_type : (name : Text) (t : ℕ) → Keeps (put_type name t)
unfolding put_type
Keeps-put_type name t = Keeps-change _ λ s. Later-same s _ refl refl refl refl

pub Keeps-set_last : (t : Option ℕ) → Keeps (set_last t)
unfolding set_last
Keeps-set_last t = Keeps-change _ λ s. Later-same s _ refl refl refl refl

pub Keeps-set_const : (b : Bool) → Keeps (set_const b)
unfolding set_const
Keeps-set_const b = Keeps-change _ λ s. Later-same s _ refl refl refl refl

pub Keeps-set_lvalue : (b : Bool) → Keeps (set_lvalue b)
unfolding set_lvalue
Keeps-set_lvalue b = Keeps-change _ λ s. Later-same s _ refl refl refl refl

pub ruleset keeps_rules = (
  plain_rules, Keeps-find, Keeps-put, Keeps-reset_free_variables, Keeps-get_free_variables,
  Keeps-symbol, Keeps-node, Keeps-last, Keeps-last_followed, Keeps-get_name, Keeps-find_type,
  Keeps-resolve, Keeps-make_symbol, Keeps-new_type, Keeps-mark, Keeps-change_type, Keeps-put_type,
  Keeps-set_last, Keeps-set_const, Keeps-set_lvalue,
)
