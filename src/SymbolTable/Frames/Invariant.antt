-- ===== src/SymbolTable/Frames/Invariant.antt =====
-- What holds of the frames throughout: every pointer leads to a table that was created before, the
-- stack is not empty and its top is the current table.
use axcomp.Prelude.{
  ℕ, zero, suc, ◌≡◌, refl, ap, ◌∙◌, sym, subst, ◌<◌, ◌≤◌, arith, List, [], ◌∷◌, ◌++◌, Option, none,
  some, get_elem?, get_elem?-lt, get_elem?-append_left, get_elem?-append_here, length,
  length-append, if◌then◌else◌, Text, text_eq, Bool-cases, inl, inr, ◌+◌, dec_lt, codes,
}
use axcomp.SymbolTable.Map.{lookup, insert, lookup-insert}
use axcomp.SymbolTable.Store.{Store, Table}
use axcomp.SymbolTable.Store.Chain.{Parents}
use axcomp.SymbolTable.Frames.{
  Frames, enter, new_table, create, push_at, push_frame, initial, pop_to, pop_frame,
}

abbrev pub Below : ℕ → List ℕ → Type 0
Below n [] = Unit
Below n (i ∷ is) = (i < n) × Below n is

Below-le : (m n : ℕ) (is : List ℕ) → m ≤ n → Below m is → Below n is
Below-le m n [] h b = tt
Below-le m n (i ∷ is) h (b, bs) = (omega arith, Below-le m n is h bs)

module _ {ℓ} {V : Type ℓ} where
  pub record IsValid (fr : Frames V) : Type ℓ where
    pub parents : Parents fr.tables
    pub top : ℕ
    pub outer : List ℕ
    pub stack : fr.frame_stack ≡ top ∷ outer
    pub current : fr.current_table ≡ some top
    pub in_store : Below (length fr.tables) (top ∷ outer)
    pub mapped : (name : Text) (i : ℕ) → lookup name fr.frame_map ≡ some i → i < length fr.tables

  enter-IsValid : (i : ℕ) (fr : Frames V) → i < length fr.tables → IsValid fr → IsValid (enter i fr)
  enter-IsValid i fr h v = record {
    parents = v.parents;
    top = i;
    outer = fr.frame_stack;
    stack = refl;
    current = refl;
    in_store = (h, rw v.stack v.in_store);
    mapped = v.mapped;
  }

  -- A new table points at the current one, which stands before it.
  Parents-create :
      (s : Store V) (o : Option ℕ)
      → Parents s
      → ((n : ℕ) → o ≡ some n → n < length s)
      → Parents (s ++ new_table o ∷ [])
  Parents-create s o ps below i n t e next = elim (dec_lt i (length s)) [
    | yes old ↦ ps i n t (sym (get_elem?-append_left s (new_table o ∷ []) i old) ∙ e) next
    | no new ↦
        let bound = get_elem?-lt (s ++ new_table o ∷ []) i e in
        let last : i ≡ length s = omega (arith, length-append s (new_table o ∷ [])) in
        let found : new_table o ≡ t =
          cc (
            e,
            get_elem?-append_here s (new_table o),
            ap (get_elem? (s ++ new_table o ∷ [])) last,
          ) in
        let from : o ≡ some n = ap (λ w. w.next) found ∙ next in
        subst (λ k. n < k) (sym last) (below n from)
  ]

  length-create : (s : Store V) (t : Table V) → length (s ++ t ∷ []) ≡ length s + 1
  length-create s t = length-append s (t ∷ [])

  create-IsValid : (name : Text) (fr : Frames V) → IsValid fr → IsValid (create name fr)
  create-IsValid name fr v =
      let more = length-create fr.tables (new_table fr.current_table) in
      record {
        parents =
            Parents-create fr.tables fr.current_table v.parents
              (λ n e. subst (λ k. k < length fr.tables) (top_is n e) v.in_store.0);
        top = v.top;
        outer = v.outer;
        stack = v.stack;
        current = v.current;
        in_store = Below-le (length fr.tables) _ (v.top ∷ v.outer) (omega arith) v.in_store;
        mapped = λ x i e.
            mapped_create x i more (sym (lookup-insert name x (length fr.tables) fr.frame_map) ∙ e);
      }
    where
      top_is : (n : ℕ) → fr.current_table ≡ some n → v.top ≡ n
      top_is n e = cc v.current

      mapped_create :
          (x : Text) (i : ℕ)
          → length (create name fr).tables ≡ length fr.tables + 1
          → (if text_eq name x then some (length fr.tables) else lookup x fr.frame_map) ≡ some i
          → i < length (create name fr).tables
      mapped_create x i more e = elim (Bool-cases (text_eq name x)) [
        | inl same ↦ let here : some (length fr.tables) ≡ some i = rw same at e in ground arith
        | inr other ↦
            let there : lookup x fr.frame_map ≡ some i = rw other at e in
            omega (arith, v.mapped x i there)
      ]

  pub push_frame-IsValid : (name : Text) (fr : Frames V) → IsValid fr → IsValid (push_frame name fr)
  unfolding push_frame
  push_frame-IsValid name fr v = go (lookup name fr.frame_map) refl
    where
      go : (o : Option ℕ) → lookup name fr.frame_map ≡ o → IsValid (push_at name fr o)
      go (some i) e = enter-IsValid i fr (v.mapped name i e) v
      go none e =
          enter-IsValid (length fr.tables) (create name fr)
            (omega (arith, length-create fr.tables (new_table fr.current_table)))
            (create-IsValid name fr v)

  pub pop_frame-IsValid : (fr fr' : Frames V) → IsValid fr → pop_frame fr ≡ some fr' → IsValid fr'
  unfolding pop_frame
  pop_frame-IsValid fr fr' v e = go fr.frame_stack v.stack e
    where
      go : (st : List ℕ) → st ≡ v.top ∷ v.outer → pop_to st fr ≡ some fr' → IsValid fr'
      go [] s h = cc
      go (a ∷ []) s h = cc
      go (a ∷ b ∷ st) s h =
          let same : record fr { frame_stack = b ∷ st; current_table = some b } ≡ fr' = cc in
          let outer : b ∷ st ≡ v.outer = cc in
          subst IsValid same (record {
            parents = v.parents;
            top = b;
            outer = st;
            stack = refl;
            current = refl;
            in_store = subst (Below (length fr.tables)) (sym outer) v.in_store.1;
            mapped = v.mapped;
          })

  -- A change of the tables that keeps their number and their parents.
  pub with_tables-IsValid :
      (fr : Frames V) (s : Store V)
      → IsValid fr
      → Parents s
      → length s ≡ length fr.tables
      → IsValid (record fr { tables = s })
  with_tables-IsValid fr s v ps same = record {
    parents = ps;
    top = v.top;
    outer = v.outer;
    stack = v.stack;
    current = v.current;
    in_store = subst (λ n. Below n (v.top ∷ v.outer)) (sym same) v.in_store;
    mapped = λ x i e. omega (arith, v.mapped x i e);
  }

  pub initial-IsValid : IsValid initial
  unfolding initial push_frame lookup insert
  initial-IsValid = record {
    parents = λ i n t e next. first i n t e next;
    top = 0;
    outer = [];
    stack = refl;
    current = refl;
    in_store = (omega arith, tt);
    mapped = λ name i e. named name i e;
  }
    where
      first :
          (i n : ℕ) (t : Table V)
          → get_elem? (new_table none ∷ []) i ≡ some t
          → t.next ≡ some n
          → n < i
      first zero n t e next = cc
      first (suc i) n t e next = cc

      named :
          (name : Text) (i : ℕ)
          → (if text_eq (codes ".") name then some (zero) else none) ≡ some i
          → i < 1
      named name i e = ground arith
