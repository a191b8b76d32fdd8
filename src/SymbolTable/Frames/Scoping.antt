-- ===== src/SymbolTable/Frames/Scoping.antt =====
-- What names mean: the value of a name in the frames, and how the methods of `FrameTable` change it.
use axcomp.Prelude.{
  ℕ, suc, ◌≡◌, refl, ap, ◌∙◌, sym, ◌<◌, arith, ◌&&◌, List, [], ◌∷◌, ◌++◌, Option, none, some,
  get_elem?, get_elem?-append_left, get_elem?-append_here, length, if◌then◌else◌, Text, text_eq,
  ◌⊎◌, inl, inr, Option-cases,
}
use axcomp.SymbolTable.Map.{lookup}
use axcomp.SymbolTable.Store
use axcomp.SymbolTable.Store.{Store, Table}
use axcomp.SymbolTable.Store.Chain.{scopes, lookup_scopes, Parents, get_elem?-modify_ne}
use axcomp.SymbolTable.Store.Find.{viewed, find-Finds}
use axcomp.SymbolTable.Store.Update.{
  is_some, scopes-view, scopes-here, scopes-fuel, lookup_scopes-put,
}
use axcomp.SymbolTable.Store.SetValue.{set_value-Sets}
use axcomp.SymbolTable.Frames.{
  Frames, enter, create, new_table, push_frame, pop_frame, put, find, set_value,
}
use axcomp.SymbolTable.Frames.Invariant.{IsValid}

module _ {ℓ} {V : Type ℓ} where
  abbrev visible_from : Option ℕ → Text → Store V → Option V
  visible_from none x s = none
  visible_from (some i) x s = lookup_scopes x (scopes (suc i) i s)

  -- The value of a name: that of the innermost scope with the name, from the current table outwards.
  unfoldable pub visible : Text → Frames V → Option V
  visible x fr = visible_from fr.current_table x fr.tables

  visible-current :
      (x : Text) (fr : Frames V) {i : ℕ}
      → fr.current_table ≡ some i
      → visible x fr ≡ lookup_scopes x (scopes (suc i) i fr.tables)
  unfolding visible
  visible-current x fr e = rw e refl

  -- `find` gives the value of the name, and no name changes its value by it.
  pub find-visible :
      (name : Text) (fr : Frames V)
      → IsValid fr
      → (fr' : Frames V) × (find name fr ≡ some (visible name fr, fr'))
        × ((x : Text) → visible x fr' ≡ visible x fr)
  unfolding find visible
  find-visible name fr k =
      let h = find-Finds (suc k.top) k.top name fr.tables k.parents k.in_store.0 (omega arith) in
      (
        record fr { tables = h.after },
        rw (k.current, h.runs) refl,
        λ x. rw k.current (
            ap (lookup_scopes x)
              (scopes-view (suc k.top) k.top fr.tables h.after k.parents λ j _. h.bindings j)),
      )

  -- `put` gives the name the value, whatever it had, and `set` does so just if some scope has the
  -- name, and says whether it has. Every other name keeps its value.
  pub put_set-visible :
      (name : Text) (v : V) (fr : Frames V)
      → IsValid fr
      → ((fr' : Frames V) × (put name v fr ≡ some fr')
          × ((x : Text) → visible x fr' ≡ (if text_eq name x then some v else visible x fr)))
        × ((fr' : Frames V) × (set_value name v fr ≡ some (is_some (visible name fr), fr'))
            × ((x : Text)
                → visible x fr'
                  ≡ (if text_eq name x && is_some (visible name fr) then some v else visible x fr)))
  unfolding put set_value visible
  put_set-visible name v fr k =
      let h =
        set_value-Sets (suc k.top) k.top name v fr.tables k.parents k.in_store.0 (omega arith) in
      (
        (
          record fr { tables = Store.put k.top name v fr.tables },
          rw k.current refl,
          λ x. rw k.current (
              lookup_scopes-put (suc k.top) k.top name x v fr.tables k.parents k.in_store.0
                (omega arith)),
        ),
        (
          record fr { tables = h.after },
          rw (k.current, h.runs) refl,
          λ x. rw k.current (h.lookups x),
        ),
      )

  -- The scopes of a table do not see the tables that are created later.
  scopes-append :
      (i : ℕ) (s : Store V) (t : Table V)
      → Parents s
      → i < length s
      → scopes (suc i) i (s ++ t ∷ []) ≡ scopes (suc i) i s
  scopes-append i s t ps h =
      scopes-view (suc i) i s (s ++ t ∷ []) ps
        λ j k. ap viewed (get_elem?-append_left s (t ∷ []) j (omega arith))

  -- A new table that is nested in `top` is an empty scope before those of `top`.
  lookup_scopes-create :
      (x : Text) (s : Store V) (top : ℕ)
      → Parents s
      → top < length s
      → let n = length s in
        lookup_scopes x (scopes (suc n) n (s ++ new_table (some top) ∷ []))
        ≡ lookup_scopes x (scopes (suc top) top s)
  unfolding lookup_scopes lookup
  lookup_scopes-create x s top ps h =
      let n : ℕ = length s in
      let t : Table V = new_table (some top) in
      let longer =
        scopes-view n top s (s ++ t ∷ []) ps
          λ j k. ap viewed (get_elem?-append_left s (t ∷ []) j (omega arith)) in
      rw
        (
          scopes-here n n (s ++ t ∷ []) t (get_elem?-append_here s t),
          longer,
          scopes-fuel n (suc top) top s ps h (omega arith),
        )
        refl

  -- A frame with a new name is nested in the current table, so that every name keeps its value. A
  -- frame with a name that was used before is the frame of that time: what its names mean does not
  -- depend on the table that is current now.
  pub push_frame-visible :
      (name : Text) (fr : Frames V)
      → IsValid fr
      → (x : Text)
      → ((lookup name fr.frame_map ≡ none) × (visible x (push_frame name fr) ≡ visible x fr))
        ⊎ ((i : ℕ) × (lookup name fr.frame_map ≡ some i)
            × (visible x (push_frame name fr) ≡ lookup_scopes x (scopes (suc i) i fr.tables)))
  unfolding push_frame visible
  push_frame-visible name fr k x = elim (Option-cases (lookup name fr.frame_map)) [
    | inl new ↦ inl (new, fresh new)
    | inr (i, old) ↦ inr (i, old, again i old)
  ]
    where
      fresh : lookup name fr.frame_map ≡ none → visible x (push_frame name fr) ≡ visible x fr
      fresh e = rw (e, k.current) (lookup_scopes-create x fr.tables k.top k.parents k.in_store.0)

      again :
          (i : ℕ)
          → lookup name fr.frame_map ≡ some i
          → visible x (push_frame name fr) ≡ lookup_scopes x (scopes (suc i) i fr.tables)
      again i e = rw e refl

  -- Values put under names, in order.
  unfoldable pub put_all : List (Text × V) → Frames V → Option (Frames V)
  put_all [] fr = some fr
  put_all ((name, v) ∷ bs) fr = elim (put name v fr) [ none ↦ none | some fr' ↦ put_all bs fr' ]

  -- Frames that are one table `n` deeper than `fr`, and have the tables of `fr` as they were.
  record Inner (fr : Frames V) (n : ℕ) (inner : Frames V) : Type ℓ where
    stack : inner.frame_stack ≡ n ∷ fr.frame_stack
    current : inner.current_table ≡ some n
    kept : (j : ℕ) → j < n → get_elem? inner.tables j ≡ get_elem? fr.tables j

  put-current :
      (name : Text) (v : V) (inner : Frames V) {n : ℕ}
      → inner.current_table ≡ some n
      → put name v inner ≡ some (record inner { tables = Store.put n name v inner.tables })
  unfolding put
  put-current name v inner e = rw e refl

  put_all-cons :
      (name : Text) (v : V) (bs : List (Text × V)) (fr fr' : Frames V)
      → put name v fr ≡ some fr'
      → put_all ((name, v) ∷ bs) fr ≡ put_all bs fr'
  unfolding put_all
  put_all-cons name v bs fr fr' e = rw (e, put_all) refl

  put-Inner :
      (fr : Frames V) (n : ℕ) (name : Text) (v : V) (inner : Frames V)
      → Inner fr n inner
      → Inner fr n (record inner { tables = Store.put n name v inner.tables })
  unfolding Store.put
  put-Inner fr n name v inner h = record {
    stack = h.stack;
    current = h.current;
    kept = λ j k.
        get_elem?-modify_ne n j (Store.put_entry name v) inner.tables (ground arith) ∙ h.kept j k;
  }

  put_all-Inner :
      (fr : Frames V) (n : ℕ) (bs : List (Text × V)) (inner : Frames V)
      → Inner fr n inner
      → (after : Frames V) × (put_all bs inner ≡ some after) × Inner fr n after
  unfolding put_all
  put_all-Inner fr n [] inner h = (inner, refl, h)
  put_all-Inner fr n ((name, v) ∷ bs) inner h =
      let (after, runs, deep) =
        put_all-Inner fr n bs (record inner { tables = Store.put n name v inner.tables })
          (put-Inner fr n name v inner h) in
      (after, put_all-cons name v bs inner _ (put-current name v inner h.current) ∙ runs, deep)

  pop_frame-Inner :
      (fr : Frames V) (n : ℕ) (inner : Frames V)
      → IsValid fr
      → n ≡ length fr.tables
      → Inner fr n inner
      → (after : Frames V) × (pop_frame inner ≡ some after)
        × (after.frame_stack ≡ fr.frame_stack)
        × (after.current_table ≡ fr.current_table)
        × ((x : Text) → visible x after ≡ visible x fr)
  unfolding pop_frame visible
  pop_frame-Inner fr n inner k size h = (
    record inner { frame_stack = k.top ∷ k.outer; current_table = some k.top },
    rw (h.stack, k.stack) refl,
    sym k.stack,
    sym k.current,
    λ x. rw k.current (
        ap (lookup_scopes x) (
          scopes-view (suc k.top) k.top fr.tables inner.tables k.parents
            λ j le. ap viewed (h.kept j (omega (arith, k.in_store.0))))),
  )

  -- A scope ends with its frame: after a frame with a new name, any values put into it and the end of
  -- the frame, the stack and the current table are as before, and every name has its value of before.
  pub push-put-pop :
      (name : Text) (bs : List (Text × V)) (fr : Frames V)
      → IsValid fr
      → lookup name fr.frame_map ≡ none
      → (inner after : Frames V) × (put_all bs (push_frame name fr) ≡ some inner)
        × (pop_frame inner ≡ some after)
        × (after.frame_stack ≡ fr.frame_stack)
        × (after.current_table ≡ fr.current_table)
        × ((x : Text) → visible x after ≡ visible x fr)
  unfolding push_frame
  push-put-pop name bs fr k e =
      let n : ℕ = length fr.tables in
      let opened : Inner fr n (enter n (create name fr)) = record {
        stack = refl;
        current = refl;
        kept = λ j h. get_elem?-append_left fr.tables (new_table fr.current_table ∷ []) j h;
      } in
      let (inner, runs, deep) = put_all-Inner fr n bs (enter n (create name fr)) opened in
      let (after, popped, same_stack, same_current, same) =
        pop_frame-Inner fr n inner k refl deep in
      (inner, after, rw e runs, popped, same_stack, same_current, same)
