-- ===== src/SymbolTable/Store/Total.antt =====
-- `remove` and `reset_free_variables` of src/compiler/symboltable.hh end, and keep the store's shape.
use axcomp.Prelude.{
  ℕ, zero, suc, ◌≡◌, refl, ◌∙◌, ◌<◌, arith, Option, some, get_elem?-some, Text, length, inl, inr,
  Option-cases,
}
use axcomp.SymbolTable.Map.{lookup}
use axcomp.SymbolTable.Store.{Store, modify, erase_entry, remove, clear_free, reset_free_variables}
use axcomp.SymbolTable.Store.Chain.{Parents, length-modify, Parents-modify}

module _ {ℓ} {V : Type ℓ} where
  -- The call ends with a store of the same shape.
  pub record Keeps (s : Store V) (outcome : Option (Store V)) : Type ℓ where
    pub after : Store V
    pub runs : outcome ≡ some after
    pub parents : Parents after
    pub length_kept : length after ≡ length s

  pub remove-Keeps :
      (f i : ℕ) (name : Text) (s : Store V)
      → Parents s
      → i < length s
      → i < f
      → Keeps s (remove f i name s)
  unfolding remove
  remove-Keeps zero i name s ps there h = elim h [ ]
  remove-Keeps (suc f) i name s ps there h =
      let (t, here) = get_elem?-some s i there in
      elim (Option-cases (lookup name t.table)) [
        | inr (w, bound) ↦ record {
          after = modify i (erase_entry name) s;
          runs = rw (here, bound) refl;
          parents = Parents-modify i (erase_entry name) s (λ _. refl) ps;
          length_kept = length-modify i (erase_entry name) s;
        }
        | inl absent ↦ elim (Option-cases t.next) [
          | inl top ↦ record {
            after = s;
            runs = rw (here, absent, top) refl;
            parents = ps;
            length_kept = refl;
          }
          | inr (n, next) ↦
              let below : n < i = ps i n t here next in
              let above = remove-Keeps f n name s ps (omega arith) (omega arith) in
              record {
                after = above.after;
                runs = rw (here, absent, next) above.runs;
                parents = above.parents;
                length_kept = above.length_kept;
              }
        ]
      ]

  pub reset-Keeps :
      (f i : ℕ) (s : Store V)
      → Parents s
      → i < length s
      → i < f
      → Keeps s (reset_free_variables f i s)
  unfolding reset_free_variables
  reset-Keeps zero i s ps there h = elim h [ ]
  reset-Keeps (suc f) i s ps there h =
      let (t, here) = get_elem?-some s i there in
      let cleared : Store V = modify i clear_free s in
      let cleared_parents : Parents cleared = Parents-modify i clear_free s (λ _. refl) ps in
      let same : length cleared ≡ length s = length-modify i clear_free s in
      elim (Option-cases t.next) [
        | inl top ↦ record {
          after = cleared;
          runs = rw (here, top) refl;
          parents = cleared_parents;
          length_kept = same;
        }
        | inr (n, next) ↦
            let below : n < i = ps i n t here next in
            let above = reset-Keeps f n cleared cleared_parents (omega arith) (omega arith) in
            record {
              after = above.after;
              runs = rw (here, next) above.runs;
              parents = above.parents;
              length_kept = above.length_kept ∙ same;
            }
      ]
