-- ===== src/SymbolTable/Store/SetValue.antt =====
-- `set` of src/compiler/symboltable.hh against the list of scopes.
use axcomp.Prelude.{
  ℕ, zero, suc, ◌≡◌, refl, ◌∙◌, subst, ◌<◌, arith, false, ◌&&◌, ◌∷◌, Option, none, some, get_elem?,
  get_elem?-some, if◌then◌else◌, Text, text_eq, text_eq_iff, Bool-cases, length, inl, inr,
  Option-cases,
}
use axcomp.SymbolTable.Map.{lookup, lookup-insert}
use axcomp.SymbolTable.Store.{Table, Store, modify, add_free, put_entry, put, set_value}
use axcomp.SymbolTable.Store.Chain.{
  scopes, lookup_scopes, Parents, get_elem?-modify_self, get_elem?-modify_ne, length-modify,
  Parents-modify,
}
use axcomp.SymbolTable.Store.Update.{above-modify, scopes-here, is_some}

module _ {ℓ} {V : Type ℓ} where
  -- What `set` does: it says whether some scope has the name, and then the name has the new value,
  -- seen from the table, while every other name keeps what it had.
  pub record Sets (f i : ℕ) (name : Text) (v : V) (s : Store V) : Type ℓ where
    pub after : Store V
    pub runs : set_value f i name v s ≡ some (is_some (lookup_scopes name (scopes f i s)), after)
    pub lookups :
        (x : Text)
        → lookup_scopes x (scopes f i after) ≡ (
            if text_eq name x && is_some (lookup_scopes name (scopes f i s))
            then some v
            else lookup_scopes x (scopes f i s))
    pub later : (j : ℕ) → i < j → get_elem? after j ≡ get_elem? s j
    pub parents : Parents after
    pub length_kept : length after ≡ length s

  -- No scope has the name.
  Sets-nothing :
      (f i : ℕ) (name : Text) (v : V) (s : Store V)
      → Parents s
      → lookup_scopes name (scopes f i s) ≡ none
      → set_value f i name v s ≡ some (false, s)
      → Sets f i name v s
  Sets-nothing f i name v s ps missing runs = record {
    after = s;
    runs = runs ∙ rw missing refl;
    lookups = λ x. rw missing (ground arith);
    later = λ j h. refl;
    parents = ps;
    length_kept = refl;
  }

  Sets-here :
      (f i : ℕ) (name : Text) (v w : V) (s : Store V) (t : Table V)
      → Parents s
      → get_elem? s i ≡ some t
      → lookup name t.table ≡ some w
      → Sets (suc f) i name v s
  unfolding set_value lookup_scopes put
  Sets-here f i name v w s t ps here bound =
      let now = get_elem?-modify_self i (put_entry name v) s here in
      let up = above-modify f i (put_entry name v) s ps t here in
      record {
        after = modify i (put_entry name v) s;
        runs = rw (scopes-here f i s t here, here, bound) refl;
        lookups = λ x.
            rw
              (
                scopes-here f i (modify i (put_entry name v) s) (put_entry name v t) now,
                scopes-here f i s t here,
                up,
                lookup-insert name x v t.table,
                bound,
              )
              (ground arith);
        later = λ j k. get_elem?-modify_ne i j (put_entry name v) s (ground arith);
        parents = Parents-modify i (put_entry name v) s (λ _. refl) ps;
        length_kept = length-modify i (put_entry name v) s;
      }

  Sets-above :
      (f i n : ℕ) (name : Text) (v : V) (s : Store V) (t : Table V)
      → Parents s
      → get_elem? s i ≡ some t
      → lookup name t.table ≡ none
      → t.next ≡ some n
      → n < i
      → Sets f n name v s
      → Sets (suc f) i name v s
  unfolding set_value lookup_scopes
  Sets-above f i n name v s t ps here absent next below h =
      go (lookup_scopes name (scopes f n s)) refl
    where
      kept : get_elem? h.after i ≡ some t
      kept = h.later i below ∙ here

      seen : scopes (suc f) i s ≡ t.table ∷ scopes f n s
      seen = scopes-here f i s t here ∙ rw next refl

      go : (r : Option V) → lookup_scopes name (scopes f n s) ≡ r → Sets (suc f) i name v s
      go none missing = record {
        after = h.after;
        runs = rw (seen, here, absent, next, h.runs, missing) refl;
        lookups = λ x.
            let old = rw missing at (h.lookups x) in
            rw (scopes-here f i h.after t kept, seen, next, old, absent, missing) (ground arith);
        later = λ j k. h.later j (omega arith);
        parents = h.parents;
        length_kept = h.length_kept;
      }
      go (some w) found =
          let g : Table V → Table V = add_free name in
          let now = get_elem?-modify_self i g h.after kept in
          let up = above-modify f i g h.after h.parents t kept in
          record {
            after = modify i g h.after;
            runs = rw (seen, here, absent, next, h.runs, found) refl;
            lookups = λ x.
                let old = rw found at (h.lookups x) in
                rw
                  (
                    scopes-here f i (modify i g h.after) (g t) now,
                    seen,
                    up,
                    next,
                    old,
                    absent,
                    found,
                  )
                  (elim (Bool-cases (text_eq name x)) [
                    | inr other ↦ rw other refl
                    | inl same ↦
                        let gone : lookup x t.table ≡ none =
                          subst (λ y. lookup y t.table ≡ none) ((text_eq_iff name x).0 same)
                            absent in
                        rw (same, gone) refl
                  ]);
            later =
                λ j k. get_elem?-modify_ne i j g h.after (ground arith) ∙ h.later j (omega arith);
            parents = Parents-modify i g h.after (λ _. refl) h.parents;
            length_kept = length-modify i g h.after ∙ h.length_kept;
          }

  -- Where parents were created before their children, `set` from the table `i`, with more fuel than
  -- its index, does what `Sets` says: it answers whether some scope has the name, gives the name then
  -- the new value, and keeps every other name and every later table.
  pub set_value-Sets :
      (f i : ℕ) (name : Text) (v : V) (s : Store V)
      → Parents s
      → i < length s
      → i < f
      → Sets f i name v s
  unfolding set_value scopes lookup_scopes
  set_value-Sets zero i name v s ps there h = elim h [ ]
  set_value-Sets (suc f) i name v s ps there h =
      let (t, here) = get_elem?-some s i there in
      elim (Option-cases (lookup name t.table)) [
        | inr (w, bound) ↦ Sets-here f i name v w s t ps here bound
        | inl absent ↦ elim (Option-cases t.next) [
          | inl top ↦
              Sets-nothing (suc f) i name v s ps (rw (here, absent, top) refl)
                (rw (here, absent, top) refl)
          | inr (n, next) ↦
              let below : n < i = ps i n t here next in
              Sets-above f i n name v s t ps here absent next below
                (set_value-Sets f n name v s ps (omega arith) (omega arith))
        ]
      ]
