-- ===== src/Importer/Paths.antt =====
-- The search path: `set_search_path` of src/compiler/importer.cc.
use axcomp.Prelude.{
  ◌≡◌, refl, ap, ◌∙◌, sym, arith, Bool, true, false, not, ◌&&◌, List, [], ◌∷◌, ◌++◌, ◌==◌, Text,
  append_assoc, append-nil,
}
use axcomp.Importer.{items, push_item, set_search_path}

-- Directories as a search path, with a colon between any two.
unfoldable pub separated : List Text → Text
separated [] = []
separated (p ∷ []) = p
separated (p ∷ q ∷ ps) = p ++ b':' ∷ separated (q ∷ ps)

unfoldable pub no_colon : Text → Bool
no_colon [] = true
no_colon (c ∷ cs) = not (c == b':') && no_colon cs

unfoldable pub no_colons : List Text → Bool
no_colons [] = true
no_colons (p ∷ ps) = no_colon p && no_colons ps

-- The directories that are not empty.
unfoldable pub non_empty : List Text → List Text
non_empty [] = []
non_empty ([] ∷ ps) = non_empty ps
non_empty ((c ∷ cs) ∷ ps) = (c ∷ cs) ∷ non_empty ps

push_item-non_empty : (p : Text) (ps : List Text) → push_item p (non_empty ps) ≡ non_empty (p ∷ ps)
unfolding non_empty
push_item-non_empty [] ps = refl
push_item-non_empty (c ∷ cs) ps = refl

items-last : (item s : Text) → no_colon s ≡ true → items item s ≡ push_item (item ++ s) []
unfolding items no_colon
items-last item [] h = ap (λ t. push_item t []) (sym (append-nil item))
items-last item (c ∷ s) h =
    let other : (c == b':') ≡ false = ground arith in
    let more : no_colon s ≡ true = ground arith in
    rw other
      (items-last (item ++ c ∷ []) s more ∙ ap (λ t. push_item t []) (append_assoc item (c ∷ []) s))

items-item :
    (item s rest : Text)
    → no_colon s ≡ true
    → items item (s ++ b':' ∷ rest) ≡ push_item (item ++ s) (items [] rest)
unfolding items no_colon
items-item item [] rest h = ap (λ t. push_item t (items [] rest)) (sym (append-nil item))
items-item item (c ∷ s) rest h =
    let other : (c == b':') ≡ false = ground arith in
    let more : no_colon s ≡ true = ground arith in
    rw other (
      items-item (item ++ c ∷ []) s rest more
      ∙ ap (λ t. push_item t (items [] rest)) (append_assoc item (c ∷ []) s))

items-separated : (ps : List Text) → no_colons ps ≡ true → items [] (separated ps) ≡ non_empty ps
unfolding items separated no_colons non_empty
items-separated [] h = refl
items-separated (p ∷ []) h = items-last [] p (ground arith) ∙ push_item-non_empty p []
items-separated (p ∷ q ∷ ps) h =
    items-item [] p (separated (q ∷ ps)) (ground arith)
    ∙ ap (push_item p) (items-separated (q ∷ ps) (ground arith))
    ∙ push_item-non_empty p (q ∷ ps)

-- The directories of a search path with a colon between any two, none of them with a colon in it, are
-- added to the paths in their order, but for those that are empty: so a colon at the end or two in a
-- row add none.
pub set_search_path-separated :
    (ps paths : List Text)
    → no_colons ps ≡ true
    → set_search_path (separated ps) paths ≡ paths ++ non_empty ps
unfolding set_search_path
set_search_path-separated ps paths h = ap (λ qs. paths ++ qs) (items-separated ps h)
