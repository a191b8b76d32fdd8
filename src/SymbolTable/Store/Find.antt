-- ===== src/SymbolTable/Store/Find.antt =====
-- `find` of src/compiler/symboltable.hh against the list of scopes.
use axcomp.Prelude.{
  ℕ, zero, suc, ◌≡◌, refl, ap, ◌∙◌, ◌<◌, arith, Bool, true, false, ◌&&◌, ◌||◌, List, [], Option,
  none, some, get_elem?, get_elem?-some, Text, text_eq, length, inl, inr, Option-cases,
}
use axcomp.SymbolTable.Map.{lookup, contains, contains-include}
use axcomp.SymbolTable.Store.{Table, Store, modify, add_free, find}
use axcomp.SymbolTable.Store.Chain.{
  above_scopes, scopes, lookup_scopes, Parents, changed, get_elem?-modify, get_elem?-modify_self,
  get_elem?-modify_ne, length-modify, Parents-modify,
}

module _ {ℓ} {V : Type ℓ} where
  abbrev pub viewed : Option (Table V) → Option (List (Text × V) × Option ℕ)
  viewed none = none
  viewed (some t) = some (t.table, t.next)

  -- What a table binds and points at: all but its free variables.
  abbrev pub view : ℕ → Store V → Option (List (Text × V) × Option ℕ)
  view j s = viewed (get_elem? s j)

  abbrev free_of : Option (Table V) → List Text
  free_of none = []
  free_of (some t) = t.free_variables

  abbrev pub free_at : ℕ → Store V → List Text
  free_at j s = free_of (get_elem? s j)

  abbrev is_free : Option V → Option V → Bool
  is_free none (some _) = true
  is_free none none = false
  is_free (some _) o = false

  abbrev captured_at : (ℕ → List (List (Text × V))) → Text → Option (Table V) → Bool
  captured_at above name none = false
  captured_at above name (some t) =
      is_free (lookup name t.table) (lookup_scopes name (above_scopes above t.next))

  -- The name is not bound in the table itself and is bound in one that it is nested in.
  unfoldable pub captured : ℕ → ℕ → Text → Store V → Bool
  captured zero i name s = false
  captured (suc f) i name s = captured_at (λ n. scopes f n s) name (get_elem? s i)

  -- What `find` does: its value is that of the innermost scope with the name; it changes no binding
  -- and no table that was created behind `i`; and the name is added to the free variables of the
  -- table just if the table captures it.
  pub record Finds (f i : ℕ) (name : Text) (s : Store V) : Type ℓ where
    pub after : Store V
    pub runs : find f i name s ≡ some (lookup_scopes name (scopes f i s), after)
    pub bindings : (j : ℕ) → view j after ≡ view j s
    pub later : (j : ℕ) → i < j → get_elem? after j ≡ get_elem? s j
    pub parents : Parents after
    pub length_kept : length after ≡ length s
    pub free :
        (x : Text)
        → contains x (free_at i after)
          ≡ (contains x (free_at i s) || (text_eq name x && captured f i name s))

  -- Nothing is noted where the table itself has the name, or no table has it.
  Finds-unchanged :
      (f i : ℕ) (name : Text) (s : Store V)
      → find f i name s ≡ some (lookup_scopes name (scopes f i s), s)
      → captured f i name s ≡ false
      → Parents s
      → Finds f i name s
  Finds-unchanged f i name s runs c ps = record {
    after = s;
    runs = runs;
    bindings = λ j. refl;
    later = λ j h. refl;
    parents = ps;
    length_kept = refl;
    free = λ x. rw c (ground arith);
  }

  view-noted :
      (i j : ℕ) (name : Text) (s : Store V) → view j (modify i (add_free name) s) ≡ view j s
  view-noted i j name s = ap viewed (get_elem?-modify i j (add_free name) s) ∙ go (get_elem? s j)
    where
      go : (o : Option (Table V)) → viewed (changed i (add_free name) j o) ≡ viewed o
      go none = refl
      go (some t) = ground arith

  free-noted :
      (i : ℕ) (name x : Text) (s : Store V) (t : Table V)
      → get_elem? s i ≡ some t
      → contains x (free_at i (modify i (add_free name) s))
        ≡ (text_eq name x || contains x t.free_variables)
  free-noted i name x s t e =
      ap (λ o. contains x (free_of o)) (get_elem?-modify_self i (add_free name) s e)
      ∙ contains-include name x t.free_variables

  -- Nothing is noted if the tables above lack the name, and the name if one of them has it.
  Finds-above :
      (f i n : ℕ) (name : Text) (s : Store V) (t : Table V)
      → get_elem? s i ≡ some t
      → lookup name t.table ≡ none
      → t.next ≡ some n
      → n < i
      → Finds f n name s
      → Finds (suc f) i name s
  unfolding find scopes captured lookup_scopes
  Finds-above f i n name s t here absent next below h = go (lookup_scopes name (scopes f n s)) refl
    where
      go : (r : Option V) → lookup_scopes name (scopes f n s) ≡ r → Finds (suc f) i name s
      go none missing = record {
        after = h.after;
        runs = rw (here, absent, next, h.runs, missing) refl;
        bindings = h.bindings;
        later = λ j k. h.later j (omega arith);
        parents = h.parents;
        length_kept = h.length_kept;
        free = λ x.
            rw (here, absent, next, missing)
              (ap (λ o. contains x (free_of o)) (h.later i below ∙ here) ∙ ground arith);
      }
      go (some v) found =
          let kept : get_elem? h.after i ≡ some t = h.later i below ∙ here in
          record {
            after = modify i (add_free name) h.after;
            runs = rw (here, absent, next, h.runs, found) refl;
            bindings = λ j. view-noted i j name h.after ∙ h.bindings j;
            later = λ j k.
                get_elem?-modify_ne i j (add_free name) h.after (ground arith)
                ∙ h.later j (omega arith);
            parents = Parents-modify i (add_free name) h.after (λ _. refl) h.parents;
            length_kept = length-modify i (add_free name) h.after ∙ h.length_kept;
            free = λ x.
                rw (here, absent, next, found) (free-noted i name x h.after t kept ∙ ground arith);
          }

  -- Where parents were created before their children, `find` from the table `i`, with more fuel than
  -- its index, does what `Finds` says: it gives the value of the innermost scope that has the name,
  -- notes the name as free in the table just if it came from above, and changes no binding and no
  -- later table.
  pub find-Finds :
      (f i : ℕ) (name : Text) (s : Store V) → Parents s → i < length s → i < f → Finds f i name s
  unfolding find scopes captured lookup_scopes
  find-Finds zero i name s ps there h = elim h [ ]
  find-Finds (suc f) i name s ps there h =
      let (t, here) = get_elem?-some s i there in
      elim (Option-cases (lookup name t.table)) [
        | inr (v, bound) ↦
            Finds-unchanged (suc f) i name s (rw (here, bound) refl) (rw (here, bound) refl) ps
        | inl absent ↦ elim (Option-cases t.next) [
          | inl top ↦
              Finds-unchanged (suc f) i name s (rw (here, absent, top) refl)
                (rw (here, absent, top) refl) ps
          | inr (n, next) ↦
              let below : n < i = ps i n t here next in
              Finds-above f i n name s t here absent next below
                (find-Finds f n name s ps (omega arith) (omega arith))
        ]
      ]
