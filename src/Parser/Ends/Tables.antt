-- ===== src/Parser/Ends/Tables.antt =====
-- The parser's calls of the table of symbols: src/compiler/parser.cc.
use axcomp.Prelude.{ℕ, suc, ◌≡◌, refl, arith, Option, none, some, Text}
use axcomp.Error.{Ends, returns, throws}
use axcomp.SymbolTable.Frames
use axcomp.SymbolTable.Store
use axcomp.SymbolTable.Store.{Store}
use axcomp.SymbolTable.Frames.{Frames, with_tables, find_at, put_at}
use axcomp.SymbolTable.Frames.Steps.{put-Runs, find-Runs, Runs-IsValid}
use axcomp.Parser.State.{Symbol, printed, find, put, with_frames, found_frames}
use axcomp.Parser.Ends.{Takes-pure, Kept, After, Takes}

-- The methods of the table of symbols keep the frames valid and the stack of frames as it is.
find-Kept :
    (name : Text) (fr : Frames Symbol) (o : Option Symbol) (fr' : Frames Symbol)
    → Frames.find name fr ≡ some (o, fr')
    → Kept fr fr'
unfolding Frames.find
find-Kept name fr o fr' e = record {
  valid = λ v. Runs-IsValid (λ r. r.1) _ (o, fr') (find-Runs name fr v) e;
  stack = go fr.current_table e;
}
  where
    tables_of :
        (r : Option (Option Symbol × Store Symbol))
        → with_tables fr r ≡ some (o, fr')
        → fr'.frame_stack ≡ fr.frame_stack
    tables_of none e1 = cc
    tables_of (some (a, t)) e1 = cc

    go : (c : Option ℕ) → find_at c name fr ≡ some (o, fr') → fr'.frame_stack ≡ fr.frame_stack
    go none e1 = cc
    go (some i) e1 = tables_of (Store.find (suc i) i name fr.tables) e1

put-Kept :
    (name : Text) (v : Symbol) (fr fr' : Frames Symbol)
    → Frames.put name v fr ≡ some fr'
    → Kept fr fr'
unfolding Frames.put
put-Kept name v fr fr' e = record {
  valid = λ k. Runs-IsValid (λ x. x) _ fr' (put-Runs name v fr k) e;
  stack = go fr.current_table e;
}
  where
    go : (c : Option ℕ) → put_at c name v fr ≡ some fr' → fr'.frame_stack ≡ fr.frame_stack
    go none e1 = cc
    go (some i) e1 = cc

pub find-Takes : (n : ℕ) (name : Text) → Takes n 0 (find name)
unfolding find
find-Takes n name s h = go (Frames.find name s.symbols) refl
  where
    go :
        (o : Option (Option Symbol × Frames Symbol))
        → Frames.find name s.symbols ≡ o
        → Ends (λ r. After 0 s r.1) (found_frames s o)
    go none e = throws
    go (some (o, fr)) e =
        returns (record { less = omega arith; kept = find-Kept name s.symbols o fr e })

pub put-Takes : (n : ℕ) (name : Text) (v : Symbol) → Takes n 0 (put name v)
unfolding put
put-Takes n name v s h = go (Frames.put name v s.symbols) refl
  where
    go :
        (o : Option (Frames Symbol))
        → Frames.put name v s.symbols ≡ o
        → Ends (λ r. After 0 s r.1) (with_frames s o)
    go none e = throws
    go (some fr) e = returns (record { less = omega arith; kept = put-Kept name v s.symbols fr e })

-- The print of a node.
pub printed-Takes : (n : ℕ) (o : Option Text) → Takes n 0 (printed o)
unfolding printed
printed-Takes n none s h = throws
printed-Takes n (some t) s h = Takes-pure n t s h
