-- ===== src/Importer/Transfer.antt =====
-- What a module sees of the modules it imports: `transfer_symbols` of src/compiler/importer.cc.
use axcomp.Prelude.{
  ℕ, ◌≡◌, refl, ap, ◌∙◌, subst, Bool, true, false, List, [], ◌∷◌, Option, none, some, if◌then◌else◌,
  Text, text_eq,
}
use axcomp.SymbolTable.Store.Chain.{or_else}
use axcomp.SymbolTable.Frames.{Frames}
use axcomp.SymbolTable.Frames.Invariant.{IsValid}
use axcomp.SymbolTable.Frames.Steps.{put-Runs}
use axcomp.SymbolTable.Frames.Scoping.{visible, put_set-visible}
use axcomp.Attr.{Attr}
use axcomp.Importer.{Symbols, set_at, make_coded_id, transfer_entries}

-- The last entry whose coded name is `x`.
unfoldable pub imported : Text → Text → List (Text × ℕ) → Option ℕ
imported m x [] = none
imported m x ((name, s) ∷ es) =
    or_else (imported m x es) (if text_eq (make_coded_id m name) x then some s else none)

-- The outcome of the transfer: valid frames in which each name of an entry, coded with the module's,
-- is the symbol of the entry, and every other name is what it was.
pub record Transfers (m : Text) (es : List (Text × ℕ)) (symbols : Symbols) (to : Frames ℕ)
    : Type 0 where
  pub marked : Symbols
  pub after : Frames ℕ
  pub runs : transfer_entries m es (symbols, to) ≡ some (marked, after)
  pub valid : IsValid after
  pub values : (x : Text) → visible x after ≡ or_else (imported m x es) (visible x to)

or_else_assoc : (a b c : Option ℕ) → or_else a (or_else b c) ≡ or_else (or_else a b) c
or_else_assoc none b c = refl
or_else_assoc (some v) b c = refl

or_else-if :
    (b : Bool) (v : ℕ) (o : Option ℕ)
    → (if b then some v else o) ≡ or_else (if b then some v else none) o
or_else-if true v o = refl
or_else-if false v o = refl

-- The transfer of a module's entries into valid frames ends with valid frames: there each name of an entry, coded with
-- the module's name, is the symbol of the last such entry, and every other name has its value of
-- before.
pub transfer_entries-Transfers :
    (m : Text) (es : List (Text × ℕ)) (symbols : Symbols) (to : Frames ℕ)
    → IsValid to
    → Transfers m es symbols to
unfolding transfer_entries imported
transfer_entries-Transfers m [] symbols to k = record {
  marked = symbols;
  after = to;
  runs = refl;
  valid = k;
  values = λ x. refl;
}
transfer_entries-Transfers m ((name, s) ∷ es) symbols to k =
    let coded : Text = make_coded_id m name in
    let h = put-Runs coded s to k in
    let (to', runs, values) = (put_set-visible coded s to k).0 in
    let same : h.result ≡ to' = cc h.runs in
    let valid : IsValid to' = subst IsValid same h.valid in
    let rest = transfer_entries-Transfers m es (set_at s Attr.global_var symbols) to' valid in
    record {
      marked = rest.marked;
      after = rest.after;
      runs = rw runs rest.runs;
      valid = rest.valid;
      values = λ x.
          rest.values x
          ∙ ap (or_else (imported m x es))
              (values x ∙ or_else-if (text_eq coded x) s (visible x to))
          ∙ or_else_assoc (imported m x es) (if text_eq coded x then some s else none)
              (visible x to);
    }
