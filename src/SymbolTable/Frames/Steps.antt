-- ===== src/SymbolTable/Frames/Steps.antt =====
-- Every sequence of calls of the methods of `FrameTable` keeps the frames valid, and in valid frames
-- no method but `pop_frame` meets a null pointer.
use axcomp.Prelude.{suc, ◌≡◌, refl, subst, arith, Bool, Option, some, Text}
use axcomp.SymbolTable.Store
use axcomp.SymbolTable.Store.{Store, Table}
use axcomp.SymbolTable.Store.Chain.{scopes, lookup_scopes, length-modify, Parents-modify}
use axcomp.SymbolTable.Store.Find.{find-Finds}
use axcomp.SymbolTable.Store.Update.{is_some}
use axcomp.SymbolTable.Store.SetValue.{set_value-Sets}
use axcomp.SymbolTable.Store.Total.{remove-Keeps, reset-Keeps}
use axcomp.SymbolTable.Frames.{
  Frames, push_frame, pop_frame, initial, put, find, set_value, remove, reset_free_variables,
}
use axcomp.SymbolTable.Frames.Invariant.{
  IsValid, push_frame-IsValid, pop_frame-IsValid, with_tables-IsValid, initial-IsValid,
}

module _ {ℓ} {V : Type ℓ} where
  -- The call has an outcome, whose frames are valid.
  pub record Runs {κ} {A : Type κ} (frames_of : A → Frames V) (outcome : Option A)
      : Type (ℓ ⊔ κ) where
    pub result : A
    pub runs : outcome ≡ some result
    pub valid : IsValid (frames_of result)

  pub put-Runs : (name : Text) (v : V) (fr : Frames V) → IsValid fr → Runs (λ x. x) (put name v fr)
  unfolding put Store.put
  put-Runs name v fr k = record {
    result = record fr { tables = Store.put k.top name v fr.tables };
    runs = rw k.current refl;
    valid =
        with_tables-IsValid fr (Store.put k.top name v fr.tables) k
          (Parents-modify k.top (Store.put_entry name v) fr.tables (λ _. refl) k.parents)
          (length-modify k.top (Store.put_entry name v) fr.tables);
  }

  pub find-Runs : (name : Text) (fr : Frames V) → IsValid fr → Runs (λ r. r.1) (find name fr)
  unfolding find
  find-Runs name fr k =
      let h = find-Finds (suc k.top) k.top name fr.tables k.parents k.in_store.0 (omega arith) in
      record {
        result = (
          lookup_scopes name (scopes (suc k.top) k.top fr.tables),
          record fr { tables = h.after },
        );
        runs = rw (k.current, h.runs) refl;
        valid = with_tables-IsValid fr h.after k h.parents h.length_kept;
      }

  set_value-Runs :
      (name : Text) (v : V) (fr : Frames V) → IsValid fr → Runs (λ r. r.1) (set_value name v fr)
  unfolding set_value
  set_value-Runs name v fr k =
      let h =
        set_value-Sets (suc k.top) k.top name v fr.tables k.parents k.in_store.0 (omega arith) in
      record {
        result = (
          is_some (lookup_scopes name (scopes (suc k.top) k.top fr.tables)),
          record fr { tables = h.after },
        );
        runs = rw (k.current, h.runs) refl;
        valid = with_tables-IsValid fr h.after k h.parents h.length_kept;
      }

  remove-Runs : (name : Text) (fr : Frames V) → IsValid fr → Runs (λ x. x) (remove name fr)
  unfolding remove
  remove-Runs name fr k =
      let h = remove-Keeps (suc k.top) k.top name fr.tables k.parents k.in_store.0 (omega arith) in
      record {
        result = record fr { tables = h.after };
        runs = rw (k.current, h.runs) refl;
        valid = with_tables-IsValid fr h.after k h.parents h.length_kept;
      }

  pub reset-Runs : (fr : Frames V) → IsValid fr → Runs (λ x. x) (reset_free_variables fr)
  unfolding reset_free_variables
  reset-Runs fr k =
      let h = reset-Keeps (suc k.top) k.top fr.tables k.parents k.in_store.0 (omega arith) in
      record {
        result = record fr { tables = h.after };
        runs = rw (k.current, h.runs) refl;
        valid = with_tables-IsValid fr h.after k h.parents h.length_kept;
      }

  -- A call of a method.
  pub data Step : Frames V → Frames V → Type ℓ where
    push : (name : Text) (fr : Frames V) → Step fr (push_frame name fr)
    pop : {fr fr' : Frames V} → pop_frame fr ≡ some fr' → Step fr fr'
    putting : {fr fr' : Frames V} (name : Text) (v : V) → put name v fr ≡ some fr' → Step fr fr'
    finding :
        {fr fr' : Frames V} (name : Text) (r : Option V)
        → find name fr ≡ some (r, fr')
        → Step fr fr'
    setting :
        {fr fr' : Frames V} (name : Text) (v : V) (b : Bool)
        → set_value name v fr ≡ some (b, fr')
        → Step fr fr'
    removing : {fr fr' : Frames V} (name : Text) → remove name fr ≡ some fr' → Step fr fr'
    resetting : {fr fr' : Frames V} → reset_free_variables fr ≡ some fr' → Step fr fr'

  -- The frames that calls lead to from the constructor.
  pub data Reach : Frames V → Type ℓ where
    start : Reach initial
    next : {fr fr' : Frames V} → Reach fr → Step fr fr' → Reach fr'

  pub Runs-IsValid {κ} :
      {A : Type κ} (frames_of : A → Frames V) (outcome : Option A) (a : A)
      → Runs frames_of outcome
      → outcome ≡ some a
      → IsValid (frames_of a)
  Runs-IsValid frames_of outcome a h e =
      let same : h.result ≡ a = cc h.runs in subst (λ r. IsValid (frames_of r)) same h.valid

  Step-IsValid : {fr fr' : Frames V} → Step fr fr' → IsValid fr → IsValid fr'
  Step-IsValid (push name fr) k = push_frame-IsValid name fr k
  Step-IsValid (pop {fr} {fr'} e) k = pop_frame-IsValid fr fr' k e
  Step-IsValid (putting {fr} {fr'} name v e) k = Runs-IsValid _ _ fr' (put-Runs name v fr k) e
  Step-IsValid (finding {fr} {fr'} name r e) k = Runs-IsValid _ _ (r, fr') (find-Runs name fr k) e
  Step-IsValid (setting {fr} {fr'} name v b e) k =
      Runs-IsValid _ _ (b, fr') (set_value-Runs name v fr k) e
  Step-IsValid (removing {fr} {fr'} name e) k = Runs-IsValid _ _ fr' (remove-Runs name fr k) e
  Step-IsValid (resetting {fr} {fr'} e) k = Runs-IsValid _ _ fr' (reset-Runs fr k) e

  -- Whatever calls were made, the frames are valid: each parent was created before its child, the
  -- current table is the top of the stack, and all indices are in the store.
  pub Reach-IsValid : {fr : Frames V} → Reach fr → IsValid fr
  Reach-IsValid start = initial-IsValid
  Reach-IsValid (next r s) = Step-IsValid s (Reach-IsValid r)

  -- In frames that calls have led to, every method but `pop_frame` has an outcome: no pointer is null
  -- or dangles, and the walk along the parents ends.
  pub Reach-runs :
      {fr : Frames V} (name : Text) (v : V)
      → Reach fr
      → ((fr' : Frames V) × (put name v fr ≡ some fr'))
        × ((r : Option V × Frames V) × (find name fr ≡ some r))
        × ((r : Bool × Frames V) × (set_value name v fr ≡ some r))
        × ((fr' : Frames V) × (remove name fr ≡ some fr'))
        × ((fr' : Frames V) × (reset_free_variables fr ≡ some fr'))
  Reach-runs {fr} name v r =
      let k = Reach-IsValid r in
      let a = put-Runs name v fr k in
      let b = find-Runs name fr k in
      let c = set_value-Runs name v fr k in
      let d = remove-Runs name fr k in
      let e = reset-Runs fr k in
      (
        (a.result, a.runs),
        (b.result, b.runs),
        (c.result, c.runs),
        (d.result, d.runs),
        (e.result, e.runs),
      )
