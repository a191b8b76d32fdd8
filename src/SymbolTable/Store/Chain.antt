-- ===== src/SymbolTable/Store/Chain.antt =====
-- The specification of lookup: a table stands for the list of scopes along `next`, and the
-- innermost scope that binds a name gives its value.
use axcomp.Prelude.{
  ℕ, zero, suc, ◌≡◌, refl, ap, ◌∙◌, sym, ◌<◌, arith, false, List, [], ◌∷◌, Option, none, some,
  get_elem?, ◌==◌, if◌then◌else◌, Text, length,
}
use axcomp.SymbolTable.Map.{lookup}
use axcomp.SymbolTable.Store.{Table, Store, modify}

module _ {ℓ} {V : Type ℓ} where
  abbrev pub above_scopes : (ℕ → List (List (Text × V))) → Option ℕ → List (List (Text × V))
  above_scopes above none = []
  above_scopes above (some n) = above n

  abbrev pub scopes_at : (ℕ → List (List (Text × V))) → Option (Table V) → List (List (Text × V))
  scopes_at above none = []
  scopes_at above (some t) = t.table ∷ above_scopes above t.next

  -- The scopes that the table `i` sees, the innermost first.
  unfoldable pub scopes : ℕ → ℕ → Store V → List (List (Text × V))
  scopes zero i s = []
  scopes (suc f) i s = scopes_at (λ n. scopes f n s) (get_elem? s i)

  abbrev pub or_else : Option V → Option V → Option V
  or_else (some v) o = some v
  or_else none o = o

  unfoldable pub lookup_scopes : Text → List (List (Text × V)) → Option V
  lookup_scopes name [] = none
  lookup_scopes name (m ∷ ms) = or_else (lookup name m) (lookup_scopes name ms)

  -- What `next` points at was created before the table: so a chain of tables ends.
  abbrev pub Parents : Store V → Type ℓ
  Parents s = (i n : ℕ) (t : Table V) → get_elem? s i ≡ some t → t.next ≡ some n → n < i

  abbrev pub changed : ℕ → (Table V → Table V) → ℕ → Option (Table V) → Option (Table V)
  changed i g j none = none
  changed i g j (some t) = some (if i == j then g t else t)

  pub get_elem?-modify :
      (i j : ℕ) (g : Table V → Table V) (s : Store V)
      → get_elem? (modify i g s) j ≡ changed i g j (get_elem? s j)
  unfolding modify
  get_elem?-modify i j g [] = refl
  get_elem?-modify zero zero g (t ∷ s) = refl
  get_elem?-modify zero (suc j) g (t ∷ s) = go (get_elem? s j)
    where
      go : (o : Option (Table V)) → o ≡ changed zero g (suc j) o
      go none = refl
      go (some u) = ground arith
  get_elem?-modify (suc i) zero g (t ∷ s) = ground arith
  get_elem?-modify (suc i) (suc j) g (t ∷ s) = get_elem?-modify i j g s ∙ go (get_elem? s j)
    where
      go : (o : Option (Table V)) → changed i g j o ≡ changed (suc i) g (suc j) o
      go none = refl
      go (some u) = ground arith

  pub length-modify :
      (i : ℕ) (g : Table V → Table V) (s : Store V) → length (modify i g s) ≡ length s
  unfolding modify
  length-modify i g [] = refl
  length-modify zero g (t ∷ s) = refl
  length-modify (suc i) g (t ∷ s) = ap suc (length-modify i g s)

  pub get_elem?-modify_self :
      (i : ℕ) (g : Table V → Table V) (s : Store V) {t : Table V}
      → get_elem? s i ≡ some t
      → get_elem? (modify i g s) i ≡ some (g t)
  get_elem?-modify_self i g s {t} e = get_elem?-modify i i g s ∙ ap (changed i g i) e ∙ ground arith

  pub get_elem?-modify_ne :
      (i j : ℕ) (g : Table V → Table V) (s : Store V)
      → (i == j) ≡ false
      → get_elem? (modify i g s) j ≡ get_elem? s j
  get_elem?-modify_ne i j g s h = get_elem?-modify i j g s ∙ go (get_elem? s j)
    where
      go : (o : Option (Table V)) → changed i g j o ≡ o
      go none = refl
      go (some t) = ground arith

  pub Parents-modify :
      (i : ℕ) (g : Table V → Table V) (s : Store V)
      → ((t : Table V) → (g t).next ≡ t.next)
      → Parents s
      → Parents (modify i g s)
  Parents-modify i g s same ps j n t e next =
      go (get_elem? s j) refl (sym (get_elem?-modify i j g s) ∙ e)
    where
      go : (o : Option (Table V)) → get_elem? s j ≡ o → changed i g j o ≡ some t → n < j
      go none h k = cc
      go (some u) h k =
          let kept : (if i == j then g u else u).next ≡ u.next = ground (arith, same u) in
          let now : (if i == j then g u else u) ≡ t = cc in
          ps j n u h (sym kept ∙ ap (λ w. w.next) now ∙ next)
