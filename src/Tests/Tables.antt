-- ===== src/Tests/Tables.antt =====
-- The frames of a symbol table, with numbers for symbols: src/compiler/symboltable.hh.
use axcomp.Prelude.{
  ℕ, suc, ◌≡◌, ◌⊎◌, refl, arith, Bool, ◌&&◌, if◌then◌else◌, [], ◌∷◌, Text, codes, Option, some,
  none, text_eq,
}
use axcomp.SymbolTable.Map.{lookup}
use axcomp.SymbolTable.Store.{Store, Table}
use axcomp.SymbolTable.Store.Chain.{scopes, lookup_scopes}
use axcomp.SymbolTable.Store.Find.{Finds, find-Finds}
use axcomp.SymbolTable.Store.Update.{is_some}
use axcomp.SymbolTable.Store.SetValue.{Sets, set_value-Sets}
use axcomp.SymbolTable.Frames.{
  Frames, initial, push_frame, pop_frame, put, find, set_value, remove, reset_free_variables,
}
use axcomp.SymbolTable.Frames.Invariant.{IsValid}
use axcomp.SymbolTable.Frames.Steps.{Reach, start, next, push, putting, Reach-IsValid, Reach-runs}
use axcomp.SymbolTable.Frames.Scoping.{
  visible, put_all, find-visible, put_set-visible, push_frame-visible, push-put-pop,
}

-- A module with the variable `x`, and the frame of a procedure `p` in it.
abbrev empty : Frames ℕ
empty = initial

abbrev with_x : Frames ℕ
with_x = elim (put (codes "x") 5 empty) [ none ↦ empty | some fr ↦ fr ]

abbrev in_p : Frames ℕ
in_p = push_frame (codes "p") with_x

with_x-put : put (codes "x") 5 empty ≡ some with_x
unfolding put initial push_frame lookup
with_x-put = refl

in_p-Reach : Reach in_p
in_p-Reach = next (next start (putting (codes "x") 5 with_x-put)) (push (codes "p") with_x)

in_p-IsValid : IsValid in_p
in_p-IsValid = Reach-IsValid in_p-Reach

Reach-IsValid_example : IsValid in_p
Reach-IsValid_example = Reach-IsValid in_p-Reach

Reach-runs_example :
    ((fr' : Frames ℕ) × (put (codes "y") 7 in_p ≡ some fr'))
    × ((r : Option ℕ × Frames ℕ) × (find (codes "y") in_p ≡ some r))
    × ((r : Bool × Frames ℕ) × (set_value (codes "y") 7 in_p ≡ some r))
    × ((fr' : Frames ℕ) × (remove (codes "y") in_p ≡ some fr'))
    × ((fr' : Frames ℕ) × (reset_free_variables in_p ≡ some fr'))
Reach-runs_example = Reach-runs (codes "y") 7 in_p-Reach

find-visible_example :
    (fr' : Frames ℕ) × (find (codes "x") in_p ≡ some (visible (codes "x") in_p, fr'))
    × ((x : Text) → visible x fr' ≡ visible x in_p)
find-visible_example = find-visible (codes "x") in_p in_p-IsValid

put_set-visible_example :
    ((fr' : Frames ℕ) × (put (codes "x") 7 in_p ≡ some fr')
      × ((x : Text) → visible x fr' ≡ (if text_eq (codes "x") x then some 7 else visible x in_p)))
    × ((fr' : Frames ℕ) × (set_value (codes "x") 7 in_p
          ≡ some (is_some (visible (codes "x") in_p), fr'))
        × ((x : Text)
            → visible x fr' ≡ (
                if text_eq (codes "x") x && is_some (visible (codes "x") in_p)
                then some 7
                else visible x in_p)))
put_set-visible_example = put_set-visible (codes "x") 7 in_p in_p-IsValid

-- The frame of `p` is left and entered again.
push_frame-visible_example :
    ((lookup (codes "p") in_p.frame_map ≡ none)
      × (visible (codes "x") (push_frame (codes "p") in_p) ≡ visible (codes "x") in_p))
    ⊎ ((i : ℕ) × (lookup (codes "p") in_p.frame_map ≡ some i)
        × (visible (codes "x") (push_frame (codes "p") in_p)
            ≡ lookup_scopes (codes "x") (scopes (suc i) i in_p.tables)))
push_frame-visible_example = push_frame-visible (codes "p") in_p in_p-IsValid (codes "x")

push-put-pop_example :
    (inner after : Frames ℕ) × (put_all ((codes "x", 9) ∷ []) (push_frame (codes "q") in_p)
      ≡ some inner)
    × (pop_frame inner ≡ some after)
    × (after.frame_stack ≡ in_p.frame_stack)
    × (after.current_table ≡ in_p.current_table)
    × ((x : Text) → visible x after ≡ visible x in_p)
unfolding put initial push_frame lookup axcomp.SymbolTable.Map.insert text_eq
    axcomp.SymbolTable.Store.put axcomp.SymbolTable.Store.modify
push-put-pop_example = push-put-pop (codes "q") ((codes "x", 9) ∷ []) in_p in_p-IsValid refl

find-Finds_example : Finds 2 1 (codes "x") in_p.tables
unfolding put initial push_frame lookup axcomp.SymbolTable.Map.insert text_eq
    axcomp.SymbolTable.Store.put axcomp.SymbolTable.Store.modify
find-Finds_example =
    find-Finds 2 1 (codes "x") in_p.tables in_p-IsValid.parents (omega arith) (omega arith)

set_value-Sets_example : Sets 2 1 (codes "x") 7 in_p.tables
unfolding put initial push_frame lookup axcomp.SymbolTable.Map.insert text_eq
    axcomp.SymbolTable.Store.put axcomp.SymbolTable.Store.modify
set_value-Sets_example =
    set_value-Sets 2 1 (codes "x") 7 in_p.tables in_p-IsValid.parents (omega arith) (omega arith)
