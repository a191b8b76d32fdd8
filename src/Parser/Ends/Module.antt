-- ===== src/Parser/Ends/Module.antt =====
-- Procedures and modules end: src/compiler/parser.cc.
use axcomp.Prelude.{
  ℕ, zero, suc, ◌+◌, ◌*◌, ◌≤◌, ◌<◌, ◌≡◌, ◌≢◌, refl, sym, ◌∙◌, ap, arith, List, [], ◌∷◌, Option,
  some, none, Text, text_eq,
}
use axcomp.Error.{Ends, returns, throws, Ends-mono, Ends-ne-out_of_fuel, out_of_fuel}
use axcomp.Token.{
  TokenType, Token, type_eq, ident, comma, semicolon, period, assign, caret, kw_module, kw_import,
  kw_begin, kw_end, kw_procedure,
}
use axcomp.Token
use axcomp.Lexer.Unicode.{IsUnicode}
use axcomp.Lexer.State.{available}
use axcomp.SymbolTable.Map.{lookup}
use axcomp.SymbolTable.Frames
use axcomp.SymbolTable.Frames.{Frames, push_at, pop_to}
use axcomp.SymbolTable.Frames.Invariant.{IsValid, push_frame-IsValid, pop_frame-IsValid}
use axcomp.Parser.State.{Library, Symbol, State, push_frame, pop_frame, is_type, with_frames}
use axcomp.Parser.Stmt.{module_ends}
use axcomp.Parser.Module.{
  check_end, parse_body, parse_procedure_forward, parse_procedure, parse_procedures,
  parse_one_import, import_list, parse_import, parse_module,
}
use axcomp.Parser.Ends.{
  Kept, Kept-trans, After, no_fuel, Takes, Ends-run, Takes-pure, Takes-bind, Takes-le, Takes-throw,
  Takes-if, Sees-if, Sees-any,
}
use axcomp.Parser.Ends.Tables.{put-Takes}
use axcomp.Parser.Ends.Tokens.{
  Sees-next, weight-type, Takes-peek, next-Takes, peek-Takes, get_token-Takes,
}
use axcomp.Parser.Ends.Basic.{parse_identifier-Takes}
use axcomp.Parser.Ends.Stmt.{statements-end}
use axcomp.Parser.Ends.Decl.{expect, parse_declaration-Takes, parse_proc-Takes}

pub check_end-Takes : (n : ℕ) (msg s t : Text) → Takes n 0 (check_end msg s t)
check_end-Takes n msg s t = Takes-if (text_eq s t) (λ _. Takes-pure n tt) (λ _. Takes-throw msg)

-- A frame on the stack.
stack-push_frame :
    (name : Text) (fr : Frames Symbol)
    → (i : ℕ) × ((Frames.push_frame name fr).frame_stack ≡ i ∷ fr.frame_stack)
unfolding Frames.push_frame
stack-push_frame name fr = go (lookup name fr.frame_map)
  where
    go : (o : Option ℕ) → (i : ℕ) × ((push_at name fr o).frame_stack ≡ i ∷ fr.frame_stack)
    go none = (_, refl)
    go (some i) = (i, refl)

stack-pop_frame :
    (i : ℕ) (is : List ℕ) (fr fr' : Frames Symbol)
    → fr.frame_stack ≡ i ∷ is
    → Frames.pop_frame fr ≡ some fr'
    → fr'.frame_stack ≡ is
unfolding Frames.pop_frame
stack-pop_frame i is fr fr' e popped = go is (ap (λ st. pop_to st fr) (sym e) ∙ popped)
  where
    go : (js : List ℕ) → pop_to (i ∷ js) fr ≡ some fr' → fr'.frame_stack ≡ js
    go [] h = cc
    go (j ∷ js) h = cc

-- What is done in a frame keeps the frames outside of it.
Kept-frame :
    (name : Text) (a b c : Frames Symbol)
    → Kept (Frames.push_frame name a) b
    → Frames.pop_frame b ≡ some c
    → Kept a c
Kept-frame name a b c inside popped =
    let pushed = stack-push_frame name a in
    record {
      valid = λ v. pop_frame-IsValid b c (inside.valid (push_frame-IsValid name a v)) popped;
      stack = stack-pop_frame pushed.0 a.frame_stack b c (inside.stack ∙ pushed.1) popped;
    }

pop_frame-run :
    (name : Text) (a : Frames Symbol) (s : State)
    → Kept (Frames.push_frame name a) s.symbols
    → Ends (λ r. (r.1.lexer ≡ s.lexer) × Kept a r.1.symbols) (pop_frame s)
unfolding pop_frame
pop_frame-run name a s inside = go (Frames.pop_frame s.symbols) refl
  where
    go :
        (o : Option (Frames Symbol))
        → Frames.pop_frame s.symbols ≡ o
        → Ends (λ r. (r.1.lexer ≡ s.lexer) × Kept a r.1.symbols) (with_frames s o)
    go none e = throws
    go (some fr) e = returns (refl, Kept-frame name a s.symbols fr inside e)

module _ (lib : Library) (good : IsUnicode lib.unicode) where
  parse_body-Takes : (f n : ℕ) → 20 * n ≤ f → Takes n 0 (parse_body lib f)
  unfolding parse_body Token.ordinal
  parse_body-Takes f n h =
      let stats = statements-end lib good f in
      Takes-bind 0 (peek-Takes lib good n) λ tok m le.
        Takes-if (is_type tok kw_begin)
          (λ _.
            Takes-bind 1 (get_token-Takes lib good m kw_begin refl)
              λ _ m1 le1. stats.block m1 module_ends (omega arith))
          λ _. Takes-pure m _

  parse_procedure_forward-Takes : (f n : ℕ) → 20 * n ≤ f → Takes n 0 (parse_procedure_forward lib f)
  unfolding parse_procedure_forward
  parse_procedure_forward-Takes f n h = Takes-bind 0 (next-Takes lib good n) λ _ m le.
      Takes-bind 0 (Takes-le 1 (omega arith) (parse_proc-Takes lib good f m (omega arith)))
        λ p m1 le1. Takes-bind 0 (put-Takes m1 _ _) λ _ m2 le2. Takes-pure m2 p

  -- What holds of the procedures that call each other, on fuel `f`.
  record ProcEnds (f : ℕ) : Type 0 where
    procedure : (n : ℕ) → 20 * n + 1 ≤ f → Takes n 0 (parse_procedure lib f)
    procedures : (n : ℕ) → 20 * n + 1 ≤ f → Takes n 0 (parse_procedures lib f)

  module _ (f : ℕ) (below : ProcEnds f) where
    parse_procedure-Takes : (n : ℕ) → 20 * n + 1 ≤ suc f → Takes n 0 (parse_procedure lib (suc f))
    unfolding parse_procedure push_frame Token.ordinal
    parse_procedure-Takes n h s le =
        Ends-run (parse_proc-Takes lib good f n (omega arith) s le) λ p s1 a1.
          let less1 = a1.less in
          let s2 : State = record s1 { symbols = Frames.push_frame p.name.value s1.symbols } in
          Ends-run
            (parse_declaration-Takes lib good f (available s1.lexer) (omega arith) s2 (omega arith))
            λ decs s3 a3.
              let less3 = a3.less in
              Ends-run (below.procedures (available s3.lexer) (omega arith) s3 (omega arith))
                λ ps s4 a4.
                  let less4 = a4.less in
                  Ends-run (parse_body-Takes f (available s4.lexer) (omega arith) s4 (omega arith))
                    λ ss s5 a5.
                      let less5 = a5.less in
                      let inside : Kept s2.symbols s5.symbols =
                        Kept-trans a3.kept (Kept-trans a4.kept a5.kept) in
                      Ends-run (pop_frame-run p.name.value s1.symbols s5 inside)
                        λ _ s6 (same, outside).
                          let count : available s6.lexer ≡ available s5.lexer = ap available same in
                          Ends-mono {P = λ r. After 0 s6 r.1}
                            ((Takes-bind 0 (expect lib good (available s6.lexer) kw_end refl)
                                λ _ m1 le1.
                                  Takes-bind 0 (expect lib good m1 ident refl) λ tok m2 le2.
                                    Takes-bind 0 (check_end-Takes m2 _ tok.val p.name.value)
                                      λ _ m3 le3.
                                        Takes-bind 0 (expect lib good m3 semicolon refl) λ _ m4 le4.
                                          Takes-bind 0 (put-Takes m4 _ _)
                                            λ _ m5 le5. Takes-pure m5 _)
                              s6 (omega arith))
                            λ r more.
                              let less6 = more.less in
                              record {
                                less = omega arith;
                                kept = Kept-trans a1.kept (Kept-trans outside more.kept);
                              }

    parse_procedures-Takes : (n : ℕ) → 20 * n + 1 ≤ suc f → Takes n 0 (parse_procedures lib (suc f))
    unfolding parse_procedures Token.ordinal
    parse_procedures-Takes n h = Takes-peek lib good λ tok.
        Sees-if (is_type tok kw_procedure)
          (λ seen. Sees-next lib good (weight-type tok kw_procedure seen refl) λ _ m le.
            Takes-bind 0 (peek-Takes lib good m) λ after m1 le1.
              Takes-bind 0
                (Takes-if (is_type after caret)
                  (λ _.
                    Takes-bind 0 (parse_procedure_forward-Takes f m1 (omega arith))
                      λ p m2 le2. Takes-pure m2 _)
                  λ _. below.procedure m1 (omega arith))
                λ p m2 le2.
                  Takes-bind 0 (below.procedures m2 (omega arith)) λ rest m3 le3. Takes-pure m3 _)
          λ _. Sees-any (Takes-pure n _)

  procedures-end : (f : ℕ) → ProcEnds f
  procedures-end zero = record {
    procedure = λ n h. no_fuel _ (omega arith) h;
    procedures = λ n h. no_fuel _ (omega arith) h;
  }
  procedures-end (suc f) =
      let below = procedures-end f in
      record {
        procedure = parse_procedure-Takes f below;
        procedures = parse_procedures-Takes f below;
      }

  parse_one_import-Takes : (n : ℕ) → Takes n 1 (parse_one_import lib)
  unfolding parse_one_import
  parse_one_import-Takes n = Takes-bind 1 (parse_identifier-Takes lib good n) λ id m le.
      Takes-bind 0 (peek-Takes lib good m) λ tok m1 le1.
        Takes-if (is_type tok assign)
          (λ _. Takes-bind 0 (next-Takes lib good m1) λ _ m2 le2.
            Takes-bind 0 (Takes-le 1 (omega arith) (parse_identifier-Takes lib good m2))
              λ second m3 le3. Takes-bind 0 (put-Takes m3 _ _) λ _ m4 le4. Takes-pure m4 _)
          λ _. Takes-bind 0 (put-Takes m1 _ _) λ _ m2 le2. Takes-pure m2 _

  import_list-Takes : (f n : ℕ) → 20 * n + 1 ≤ f → Takes n 0 (import_list lib f)
  unfolding import_list Token.ordinal
  import_list-Takes zero n h = no_fuel _ (omega arith) h
  import_list-Takes (suc f) n h = Takes-bind 1 (parse_one_import-Takes n) λ i m le.
      Takes-bind 0 (peek-Takes lib good m) λ tok m1 le1.
        Takes-if (is_type tok comma)
          (λ _. Takes-bind 0 (expect lib good m1 comma refl) λ _ m2 le2.
            Takes-bind 0 (import_list-Takes f m2 (omega arith)) λ rest m3 le3. Takes-pure m3 _)
          λ _. Takes-pure m1 _

  parse_import-Takes : (f n : ℕ) → 20 * n + 1 ≤ f → Takes n 0 (parse_import lib f)
  unfolding parse_import Token.ordinal
  parse_import-Takes f n h = Takes-bind 0 (next-Takes lib good n) λ _ m le.
      Takes-bind 0 (import_list-Takes f m (omega arith))
        λ is m1 le1. Takes-bind 0 (expect lib good m1 semicolon refl) λ _ m2 le2. Takes-pure m2 is

  parse_module-Takes : (f n : ℕ) → 20 * n ≤ f → Takes n 1 (parse_module lib f)
  unfolding parse_module Token.ordinal
  parse_module-Takes f n h =
      let procs = procedures-end f in
      Takes-bind 1 (get_token-Takes lib good n kw_module refl) λ _ m le.
        Takes-bind 0 (expect lib good m ident refl) λ name m1 le1.
          Takes-bind 0 (put-Takes m1 _ _) λ _ m2 le2.
            Takes-bind 0 (expect lib good m2 semicolon refl) λ _ m3 le3.
              Takes-bind 0 (peek-Takes lib good m3) λ tok m4 le4.
                Takes-bind 0
                  (Takes-if (is_type tok kw_import)
                    (λ _.
                      Takes-bind 0 (parse_import-Takes f m4 (omega arith))
                        λ is m5 le5. Takes-pure m5 _)
                    λ _. Takes-pure m4 _)
                  λ imports m5 le5.
                    Takes-bind 0 (parse_declaration-Takes lib good f m5 (omega arith))
                      λ decs m6 le6. Takes-bind 0 (procs.procedures m6 (omega arith)) λ ps m7 le7.
                        Takes-bind 0 (parse_body-Takes f m7 (omega arith)) λ ss m8 le8.
                          Takes-bind 0 (expect lib good m8 kw_end refl) λ _ m9 le9.
                            Takes-bind 0 (expect lib good m9 ident refl) λ last m10 le10.
                              Takes-bind 0 (check_end-Takes m10 _ last.val name.val) λ _ m11 le11.
                                Takes-bind 0 (expect lib good m11 period refl)
                                  λ _ m12 le12. Takes-pure m12 _

  -- With the behaviour that ICU and UTF8-CPP document, and with twenty units of fuel for each
  -- character and token that is left, `parse_module` ends, with a module or with an exception. With a
  -- module it has taken a token, the stack of frames is what it was, and frames that were valid are
  -- valid again.
  pub parse_module-Ends :
      (f : ℕ) (s : State)
      → 20 * available s.lexer ≤ f
      → Ends
          (λ r.
            (available r.1.lexer < available s.lexer)
            × (r.1.symbols.frame_stack ≡ s.symbols.frame_stack)
            × (IsValid s.symbols → IsValid r.1.symbols))
          (parse_module lib f s)
        × (parse_module lib f s ≢ out_of_fuel)
  parse_module-Ends f s h =
      let ends = parse_module-Takes f (available s.lexer) h s (omega arith) in
      (
        Ends-mono ends
            λ r after. let less = after.less in (omega arith, after.kept.stack, after.kept.valid),
        Ends-ne-out_of_fuel ends,
      )
