-- ===== src/SymbolTable/Store/Update.antt =====
-- `put` of src/compiler/symboltable.hh against the list of scopes.
use axcomp.Prelude.{
  ℕ, zero, suc, ◌≡◌, refl, ap, ◌<◌, ◌≤◌, arith, Bool, true, false, ◌∷◌, Option, none, some,
  get_elem?, get_elem?-some, if◌then◌else◌, Text, text_eq, length,
}
use axcomp.SymbolTable.Map.{lookup-insert}
use axcomp.SymbolTable.Store.{Table, Store, modify, put_entry, put}
use axcomp.SymbolTable.Store.Chain.{
  above_scopes, scopes_at, scopes, lookup_scopes, Parents, get_elem?-modify_self,
  get_elem?-modify_ne,
}
use axcomp.SymbolTable.Store.Find.{viewed, view}

module _ {ℓ} {V : Type ℓ} where
  -- The scopes of a table depend on the tables up to it alone, and on their free variables not at all.
  pub scopes-view :
      (f i : ℕ) (s s' : Store V)
      → Parents s
      → ((j : ℕ) → j ≤ i → view j s' ≡ view j s)
      → scopes f i s' ≡ scopes f i s
  unfolding scopes
  scopes-view zero i s s' ps same = refl
  scopes-view (suc f) i s s' ps same =
      go (get_elem? s' i) (get_elem? s i) refl (same i (omega arith))
        λ n below. scopes-view f n s s' ps λ j k. same j (omega arith)
    where
      above :
          (o : Option ℕ)
          → ((n : ℕ) → o ≡ some n → scopes f n s' ≡ scopes f n s)
          → above_scopes (λ n. scopes f n s') o ≡ above_scopes (λ n. scopes f n s) o
      above none ih = refl
      above (some n) ih = ih n refl

      go :
          (a b : Option (Table V))
          → get_elem? s i ≡ b
          → viewed a ≡ viewed b
          → ((n : ℕ) → n < i → scopes f n s' ≡ scopes f n s)
          → scopes_at (λ n. scopes f n s') a ≡ scopes_at (λ n. scopes f n s) b
      go none none e h ih = refl
      go none (some t) e h ih = cc
      go (some u) none e h ih = cc
      go (some u) (some t) e h ih =
          let same_table : u.table ≡ t.table = cc in
          let same_next : u.next ≡ t.next = cc in
          rw (same_table, same_next) (ap (◌∷◌ t.table) (above t.next λ n k. ih n (ps i n t e k)))

  -- A change of the table `i` does not show in the tables created before it.
  pub scopes-modify :
      (f n i : ℕ) (g : Table V → Table V) (s : Store V)
      → Parents s
      → n < i
      → scopes f n (modify i g s) ≡ scopes f n s
  scopes-modify f n i g s ps below =
      scopes-view f n s (modify i g s) ps
        λ j k. ap viewed (get_elem?-modify_ne i j g s (ground arith))

  -- The scopes of a table: its own, and those of the table it is nested in.
  pub scopes-here :
      (f i : ℕ) (s : Store V) (t : Table V)
      → get_elem? s i ≡ some t
      → scopes (suc f) i s ≡ t.table ∷ above_scopes (λ n. scopes f n s) t.next
  unfolding scopes
  scopes-here f i s t e = rw e refl

  abbrev pub is_some : Option V → Bool
  is_some none = false
  is_some (some _) = true

  -- The scopes above a table do not see a change of it.
  pub above-modify :
      (f i : ℕ) (g : Table V → Table V) (s : Store V)
      → Parents s
      → (t : Table V) → get_elem? s i ≡ some t
      → above_scopes (λ n. scopes f n (modify i g s)) t.next
        ≡ above_scopes (λ n. scopes f n s) t.next
  above-modify f i g s ps t here = go t.next refl
    where
      go :
          (o : Option ℕ)
          → t.next ≡ o
          → above_scopes (λ n. scopes f n (modify i g s)) o ≡ above_scopes (λ n. scopes f n s) o
      go none e = refl
      go (some n) e = scopes-modify f n i g s ps (ps i n t here e)

  -- `put` binds the name in the table itself, over what it and the tables above had for it.
  pub lookup_scopes-put :
      (f i : ℕ) (name x : Text) (v : V) (s : Store V)
      → Parents s
      → i < length s
      → i < f
      → lookup_scopes x (scopes f i (put i name v s))
        ≡ (if text_eq name x then some v else lookup_scopes x (scopes f i s))
  unfolding put lookup_scopes
  lookup_scopes-put zero i name x v s ps there h = elim h [ ]
  lookup_scopes-put (suc f) i name x v s ps there h =
      let (t, here) = get_elem?-some s i there in
      let now = get_elem?-modify_self i (put_entry name v) s here in
      let up = above-modify f i (put_entry name v) s ps t here in
      rw
        (
          scopes-here f i (modify i (put_entry name v) s) (put_entry name v t) now,
          scopes-here f i s t here,
          up,
          lookup-insert name x v t.table,
        )
        (ground arith)

  -- The fuel beyond the index makes no difference.
  pub scopes-fuel :
      (f f' i : ℕ) (s : Store V) → Parents s → i < f → i < f' → scopes f i s ≡ scopes f' i s
  unfolding scopes
  scopes-fuel zero f' i s ps h h' = elim h [ ]
  scopes-fuel (suc f) zero i s ps h h' = elim h' [ ]
  scopes-fuel (suc f) (suc f') i s ps h h' =
      go (get_elem? s i) refl λ n below. scopes-fuel f f' n s ps (omega arith) (omega arith)
    where
      above :
          (o : Option ℕ)
          → ((n : ℕ) → o ≡ some n → scopes f n s ≡ scopes f' n s)
          → above_scopes (λ n. scopes f n s) o ≡ above_scopes (λ n. scopes f' n s) o
      above none ih = refl
      above (some n) ih = ih n refl

      go :
          (o : Option (Table V))
          → get_elem? s i ≡ o
          → ((n : ℕ) → n < i → scopes f n s ≡ scopes f' n s)
          → scopes_at (λ n. scopes f n s) o ≡ scopes_at (λ n. scopes f' n s) o
      go none e ih = refl
      go (some t) e ih = ap (◌∷◌ t.table) (above t.next λ n k. ih n (ps i n t e k))
