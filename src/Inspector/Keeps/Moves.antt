-- ===== src/Inspector/Keeps/Moves.antt =====
-- Visits that enter and leave frames, and that change the procedure: `visit(ASTProcedure)` of
-- src/compiler/inspector.cc.
use axcomp.Prelude.{
  ℕ, zero, suc, ◌≡◌, refl, sym, ap, ◌∙◌, subst, List, [], ◌∷◌, ◌++◌, append_assoc, append-nil,
  Option, none, some, Text,
}
use axcomp.Error.{Error, Result, ok, err, out_of_fuel}
use axcomp.Error
use axcomp.Attr.{Attr}
use axcomp.SymbolTable.Map.{lookup}
use axcomp.SymbolTable.Frames
use axcomp.SymbolTable.Frames.{Frames}
use axcomp.SymbolTable.Frames.Invariant.{IsValid, push_frame-IsValid, pop_frame-IsValid}
use axcomp.Ast.Decl.{AstProc}
use axcomp.Inspector.State.{
  State, Complaint, Inspect, go_on, ◌>>=◌, change, push_frame, pop_frame, with_frames,
}
use axcomp.Inspector.Keeps.{Keeps, Later, Leaves, leaves}

-- The frames below the `n` that were entered last.
unfoldable pub below : ℕ → List ℕ → Option (List ℕ)
below zero st = some st
below (suc n) [] = none
below (suc n) (i ∷ st) = below n st

-- `t` has the errors of `s` and perhaps more; below `n` frames it has the stack of `s`, and its frames
-- are valid; and `p` is the procedure that a RETURN is checked against.
pub record Left (s : State) (n : ℕ) (p : Option AstProc) (t : State) : Type 0 where
  pub added : List Complaint
  pub errors : t.errors ≡ s.errors ++ added
  pub frames : below n t.symbols.frame_stack ≡ some s.symbols.frame_stack
  pub valid : IsValid t.symbols
  pub last_proc : t.last_proc ≡ p

-- The outcome of a visit that began in `s`: a state with `P`, or after a `TypeError` one with the
-- errors that there were and perhaps more, or a fault.
pub data Ran {A : Type 0} (P : State → Type 0) (s : State)
    : Result (Option A × State) → Type 0 where
  returned : {a : A} {t : State} → P t → Ran P s (ok (some a, t))
  thrown :
      {t : State} (added : List Complaint) → t.errors ≡ s.errors ++ added → Ran P s (ok (none, t))
  faulted : {e : Error} → Ran P s (err e)
  unended : Ran P s out_of_fuel

-- A visit that enters and leaves frames, so that `m` of them are open behind it where `n` were, and
-- that changes the procedure from `p` to `q`.
pub record Moves {A : Type 0} (s : State) (n : ℕ) (p : Option AstProc) (m : ℕ) (q : Option AstProc)
    (v : Inspect A) : Type 0 where
  pub at : (t : State) → Left s n p t → Ran (Left s m q) s (v t)

module _ {s : State} {n : ℕ} {p : Option AstProc} where
  later-Left : (t r : State) → Left s n p t → Later t r → Left s n p r
  later-Left t r h l = record {
    added = h.added ++ l.added;
    errors = l.errors ∙ ap (λ es. es ++ l.added) h.errors ∙ append_assoc s.errors h.added l.added;
    frames = ap (below n) l.frame_stack ∙ h.frames;
    valid = l.valid h.valid;
    last_proc = l.last_proc ∙ h.last_proc;
  }

module _ {A : Type 0} {s : State} {n : ℕ} {p : Option AstProc} where
  Leaves-Ran :
      (t : State) (r : Result (Option A × State))
      → Left s n p t
      → Leaves (Later t) r
      → Ran (Left s n p) s r
  Leaves-Ran t (ok (none, r)) h (leaves l) = let k = later-Left t r h l in thrown k.added k.errors
  Leaves-Ran t (ok (some a, r)) h (leaves l) = returned (later-Left t r h l)
  Leaves-Ran t (err e) h l = faulted
  Leaves-Ran t out_of_fuel h l = unended

  pub Keeps-Moves : (v : Inspect A) → Keeps v → Moves s n p n p v
  Keeps-Moves v k = record { at = λ t h. Leaves-Ran t (v t) h (k.at t) }

module _ {A B : Type 0} {s : State} {m : ℕ} {q : Option AstProc} {k : ℕ} {r : Option AstProc} where
  go_on-Ran :
      (o : Result (Option A × State)) (w : A → Inspect B)
      → Ran (Left s m q) s o
      → ((a : A) → Moves s m q k r (w a))
      → Ran (Left s k r) s (Error.◌>>=◌ o (go_on w))
  go_on-Ran (ok (none, t)) w (thrown added e) g = thrown added e
  go_on-Ran (ok (some a, t)) w (returned h) g = (g a).at t h
  go_on-Ran (err e) w h g = faulted
  go_on-Ran out_of_fuel w h g = unended

  pub Moves-bind :
      {n : ℕ} {p : Option AstProc} (v : Inspect A) (w : A → Inspect B)
      → Moves s n p m q v
      → ((a : A) → Moves s m q k r (w a))
      → Moves s n p k r (v >>= w)
  unfolding ◌>>=◌
  Moves-bind v w h g = record { at = λ t l. go_on-Ran (v t) w (h.at t l) g }

module _ {s : State} {n : ℕ} {p : Option AstProc} where
  pub push_frame-Moves : (name : Text) → Moves s n p (suc n) p (push_frame name)
  unfolding push_frame Frames.push_frame below
  push_frame-Moves name = record { at = λ t l. by_name t l (lookup name t.symbols.frame_map) refl }
    where
      by_name :
          (t : State) (l : Left s n p t) (i : Option ℕ)
          → lookup name t.symbols.frame_map ≡ i
          → Ran
              (Left s (suc n) p)
              s
              (ok (some tt, record t { symbols = Frames.push_at name t.symbols i }))
      by_name t l none e = returned (record {
        added = l.added;
        errors = l.errors;
        frames = l.frames;
        valid =
            subst IsValid (ap (Frames.push_at name t.symbols) e)
              (push_frame-IsValid name t.symbols l.valid);
        last_proc = l.last_proc;
      })
      by_name t l (some i) e = returned (record {
        added = l.added;
        errors = l.errors;
        frames = l.frames;
        valid =
            subst IsValid (ap (Frames.push_at name t.symbols) e)
              (push_frame-IsValid name t.symbols l.valid);
        last_proc = l.last_proc;
      })

  pub pop_frame-Moves : Moves s (suc n) p n p pop_frame
  unfolding pop_frame Frames.pop_frame below
  pop_frame-Moves = record { at = λ t l. by_stack t l t.symbols.frame_stack refl }
    where
      by_stack :
          (t : State) (l : Left s (suc n) p t) (st : List ℕ)
          → t.symbols.frame_stack ≡ st
          → Ran (Left s n p) s (with_frames t (Frames.pop_to st t.symbols))
      by_stack t l [] e = faulted
      by_stack t l (i ∷ []) e = faulted
      by_stack t l (i ∷ j ∷ st) e = returned (record {
        added = l.added;
        errors = l.errors;
        frames = sym (ap (below (suc n)) e) ∙ l.frames;
        valid = pop_frame-IsValid t.symbols _ l.valid (ap (λ r. Frames.pop_to r t.symbols) e);
        last_proc = l.last_proc;
      })

  -- The change of the procedure.
  pub last_proc-Moves :
      (q : Option AstProc) → Moves s n p n q (change λ t. record t { last_proc = q })
  unfolding change
  last_proc-Moves q = record {
    at = λ t l. returned (record {
      added = l.added;
      errors = l.errors;
      frames = l.frames;
      valid = l.valid;
      last_proc = refl;
    });
  }

  pub variable_type-Moves :
      (a : Attr) → Moves s n p n p (change λ t. record t { variable_type = a })
  unfolding change
  variable_type-Moves a = record {
    at = λ t l. returned (record {
      added = l.added;
      errors = l.errors;
      frames = l.frames;
      valid = l.valid;
      last_proc = l.last_proc;
    });
  }

-- The outcome of a visit that began in `s` with valid frames: the errors that there were, and perhaps
-- more; the stack of frames and the current table of before, in valid frames; and `p` is the procedure
-- that a RETURN is checked against.
pub record Restored (s : State) (p : Option AstProc) (t : State) : Type 0 where
  pub added : List Complaint
  pub errors : t.errors ≡ s.errors ++ added
  pub frame_stack : t.symbols.frame_stack ≡ s.symbols.frame_stack
  pub current_table : t.symbols.current_table ≡ s.symbols.current_table
  pub valid : IsValid t.symbols
  pub last_proc : t.last_proc ≡ p

module _ {s : State} {p : Option AstProc} where
  Left-Restored : (t : State) → IsValid s.symbols → Left s 0 p t → Restored s p t
  unfolding below
  Left-Restored t k l =
      let stack : t.symbols.frame_stack ≡ s.symbols.frame_stack = cc l.frames in
      record {
        added = l.added;
        errors = l.errors;
        frame_stack = stack;
        current_table = cc (stack, k.stack, k.current, l.valid.stack, l.valid.current);
        valid = l.valid;
        last_proc = l.last_proc;
      }

module _ {A : Type 0} {s : State} {p : Option AstProc} where
  Ran-Restored :
      (r : Result (Option A × State))
      → IsValid s.symbols
      → Ran (Left s 0 p) s r
      → Ran (Restored s p) s r
  Ran-Restored (ok (some a, t)) k (returned l) = returned (Left-Restored t k l)
  Ran-Restored (ok (none, t)) k (thrown added e) = thrown added e
  Ran-Restored (err e) k h = faulted
  Ran-Restored out_of_fuel k h = unended

  -- A visit that leaves as many frames as it found restores them.
  pub Moves-Restored :
      (v : Inspect A) → IsValid s.symbols → Moves s 0 s.last_proc 0 p v → Ran (Restored s p) s (v s)
  unfolding below
  Moves-Restored v k h = Ran-Restored (v s) k (
      h.at s (record {
        added = [];
        errors = sym (append-nil s.errors);
        frames = refl;
        valid = k;
        last_proc = refl;
      }))
