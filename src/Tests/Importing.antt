-- ===== src/Tests/Importing.antt =====
-- The importer at concrete inputs: src/compiler/importer.cc.
use axcomp.Prelude.{ℕ, ◌≡◌, refl, List, [], ◌∷◌, ◌++◌, none, Text, codes}
use axcomp.SymbolTable.Frames.{Frames, initial}
use axcomp.SymbolTable.Frames.Steps.{start, Reach-IsValid}
use axcomp.Importer.{Symbols, set_search_path}
use axcomp.Importer.Paths.{separated, non_empty, set_search_path-separated}
use axcomp.Importer.Transfer.{Transfers, transfer_entries-Transfers}

abbrev directories : List Text
directories = codes "lib" ∷ [] ∷ codes "src/def" ∷ []

-- The search path `lib::src/def`.
set_search_path-separated_example :
    set_search_path (separated directories) (codes "." ∷ [])
    ≡ (codes "." ∷ []) ++ non_empty directories
unfolding axcomp.Importer.Paths.no_colons axcomp.Importer.Paths.no_colon
set_search_path-separated_example = set_search_path-separated directories (codes "." ∷ []) refl

abbrev two_symbols : Symbols
two_symbols =
    record { type = none; attrs = []; const_value = none }
    ∷ record { type = none; attrs = []; const_value = none }
    ∷ []

abbrev importing : Frames ℕ
importing = initial

transfer_entries-Transfers_example :
    Transfers (codes "Out") ((codes "Int", 0) ∷ (codes "Ln", 1) ∷ []) two_symbols importing
transfer_entries-Transfers_example =
    transfer_entries-Transfers (codes "Out") ((codes "Int", 0) ∷ (codes "Ln", 1) ∷ []) two_symbols
      importing (Reach-IsValid start)
