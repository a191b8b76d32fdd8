-- ===== src/Inspector/Keeps.antt =====
-- What every visit of src/compiler/inspector.cc keeps.
pub mod Tables
pub mod Parts
pub mod Expr
pub mod TypeExpr
pub mod Stmt
pub mod Decl
pub mod Moves
pub mod Modules
pub mod Procedures
use axcomp.Prelude.{
  ℕ, ◌≡◌, refl, sym, ap, ◌∙◌, subst, Bool, true, false, List, [], ◌∷◌, ◌++◌, append_assoc,
  append-nil, Option, none, some, if◌then◌else◌, Text,
}
use axcomp.Error.{Result, ok, err, out_of_fuel}
use axcomp.Attr.{Attr}
use axcomp.Ast.Decl.{AstProc}
use axcomp.SymbolTable.Store.{Store}
use axcomp.SymbolTable.Frames
use axcomp.SymbolTable.Frames.{Frames}
use axcomp.SymbolTable.Frames.Invariant.{IsValid}
use axcomp.Types.{TypeNode}
use axcomp.Importer.{Symbol}
use axcomp.Inspector.State.{
  State, Complaint, Inspect, go_on, on_option, ◌>>=◌, ◌>>◌, pure, done, gets, change, fault,
  complain, raise, complain_if, reading, with_state, deref, found_in, find, put, with_frames,
  reset_free_variables, get_free_variables, symbol, new_symbol, make_symbol, mark, node, new_type,
  change_type, get_name, find_type, put_type, resolve, set_last, set_const, set_lvalue, last,
  last_followed,
}

-- The state `s'` is one that a visit leaves which began in `s`: errors are added to those there
-- were, the procedure, the kind of variables and the stack of frames are the same, and valid frames
-- are valid.
pub record Later (s s' : State) : Type 0 where
  pub added : List Complaint
  pub errors : s'.errors ≡ s.errors ++ added
  pub last_proc : s'.last_proc ≡ s.last_proc
  pub variable_type : s'.variable_type ≡ s.variable_type
  pub frame_stack : s'.symbols.frame_stack ≡ s.symbols.frame_stack
  pub valid : IsValid s.symbols → IsValid s'.symbols

pub Later_refl : (s : State) → Later s s
Later_refl s = record {
  added = [];
  errors = sym (append-nil s.errors);
  last_proc = refl;
  variable_type = refl;
  frame_stack = refl;
  valid = λ v. v;
}

pub Later_trans : {s t r : State} → Later s t → Later t r → Later s r
Later_trans {s} {t} {r} h k = record {
  added = h.added ++ k.added;
  errors = k.errors ∙ ap (λ es. es ++ k.added) h.errors ∙ append_assoc s.errors h.added k.added;
  last_proc = k.last_proc ∙ h.last_proc;
  variable_type = k.variable_type ∙ h.variable_type;
  frame_stack = k.frame_stack ∙ h.frame_stack;
  valid = λ v. k.valid (h.valid v);
}

-- `P` holds of the state that is left, unless the call ends in a fault.
pub data Leaves {A : Type 0} (P : State → Type 0) : Result (Option A × State) → Type 0 where
  leaves : {o : Option A} {s : State} → P s → Leaves P (ok (o, s))
  faults : {e : axcomp.Error.Error} → Leaves P (err e)
  unfinished : Leaves P out_of_fuel

pub record Keeps {A : Type 0} (m : Inspect A) : Type 0 where
  pub at : (s : State) → Leaves (Later s) (m s)

module _ {A B : Type 0} where
  go_on-Leaves :
      (s : State) (r : Result (Option A × State)) (k : A → Inspect B)
      → Leaves (Later s) r
      → ((a : A) → Keeps (k a))
      → Leaves (Later s) (axcomp.Error.◌>>=◌ r (go_on k))
  go_on-Leaves s (ok (none, t)) k (leaves h) g = leaves h
  go_on-Leaves s (ok (some a, t)) k (leaves h) g = after ((g a).at t)
    where
      after : {r : Result (Option B × State)} → Leaves (Later t) r → Leaves (Later s) r
      after (leaves l) = leaves (Later_trans h l)
      after faults = faults
      after unfinished = unfinished
  go_on-Leaves s (err e) k h g = faults
  go_on-Leaves s out_of_fuel k h g = unfinished

  pub Keeps-bind :
      (m : Inspect A) (k : A → Inspect B) → Keeps m → ((a : A) → Keeps (k a)) → Keeps (m >>= k)
  unfolding ◌>>=◌
  Keeps-bind m k h g = record { at = λ s. go_on-Leaves s (m s) k (h.at s) g }

  pub Keeps-option :
      (o : Option A) (m : Inspect B) (k : A → Inspect B)
      → Keeps m
      → ((a : A) → Keeps (k a))
      → Keeps (on_option o m k)
  unfolding on_option
  Keeps-option none m k h g = h
  Keeps-option (some a) m k h g = g a

module _ {A : Type 0} where
  pub Keeps-if : (b : Bool) (m k : Inspect A) → Keeps m → Keeps k → Keeps (if b then m else k)
  Keeps-if true m k h g = h
  Keeps-if false m k h g = g

  pub Keeps-pure : (a : A) → Keeps (pure a)
  unfolding pure
  Keeps-pure a = record { at = λ s. leaves (Later_refl s) }

  pub Keeps-gets : (g : State → A) → Keeps (gets g)
  unfolding gets
  Keeps-gets g = record { at = λ s. leaves (Later_refl s) }

  pub Keeps-raise : Keeps (raise {A = A})
  unfolding raise
  Keeps-raise = record { at = λ s. leaves (Later_refl s) }

  pub Keeps-fault : Keeps (fault {A = A})
  unfolding fault
  Keeps-fault = record { at = λ s. faults }

  pub Keeps-deref : (o : Option A) → Keeps (deref o)
  unfolding deref
  Keeps-deref none = Keeps-fault
  Keeps-deref (some a) = Keeps-pure a

  with_state-Leaves : (s : State) (r : Result A) → Leaves (Later s) (with_state s r)
  with_state-Leaves s (ok a) = leaves (Later_refl s)
  with_state-Leaves s (err e) = faults
  with_state-Leaves s out_of_fuel = unfinished

  pub Keeps-reading : (g : State → Result A) → Keeps (reading g)
  unfolding reading
  Keeps-reading g = record { at = λ s. with_state-Leaves s (g s) }

pub Keeps-done : Keeps done
unfolding done
Keeps-done = record { at = λ s. leaves (Later_refl s) }

pub Keeps-complain : (c : Complaint) → Keeps (complain c)
unfolding complain
Keeps-complain c = record {
  at = λ s. leaves (record {
    added = c ∷ [];
    errors = refl;
    last_proc = refl;
    variable_type = refl;
    frame_stack = refl;
    valid = λ v. v;
  });
}

pub Keeps-complain_if : (b : Bool) (c : Complaint) → Keeps (complain_if b c)
unfolding complain_if
Keeps-complain_if true c = Keeps-complain c
Keeps-complain_if false c = Keeps-done

-- A state with the same errors, and other parts that `Later` does not speak of.
pub Later-same :
    (s t : State)
    → t.errors ≡ s.errors
    → t.last_proc ≡ s.last_proc
    → t.variable_type ≡ s.variable_type
    → t.symbols ≡ s.symbols
    → Later s t
Later-same s t e p v f = record {
  added = [];
  errors = e ∙ sym (append-nil s.errors);
  last_proc = p;
  variable_type = v;
  frame_stack = ap (λ fr. fr.frame_stack) f;
  valid = λ k. subst IsValid (sym f) k;
}

pub ruleset plain_rules = (
  Keeps-bind, Keeps-option, Keeps-if, Keeps-pure, Keeps-gets, Keeps-raise, Keeps-fault, Keeps-deref,
  Keeps-reading, Keeps-done, Keeps-complain, Keeps-complain_if,
)
