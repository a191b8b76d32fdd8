-- ===== src/Lexer/Comments/Nesting.antt =====
-- A comment ends where the count of the open comments says, and the lines within it are counted.
use mathlib.Core.List.{tail}
use axcomp.Prelude.{
  ℕ, zero, suc, ◌+◌, ◌≤◌, ◌<◌, ◌≡◌, refl, ◌∙◌, ◌⊎◌, inl, inr, arith, Bool, true, false, ◌==◌, List,
  [], ◌∷◌, Option, none, some, if◌then◌else◌, length, Bool-cases, codes,
}
use axcomp.Error.{Location, Result, ok, err, lexical, ◌>>=◌}
use axcomp.Token.{Token}
use axcomp.Lexer.Unicode.{eof}
use axcomp.Lexer.State.{Lexer, get, peek, set_newline}
use axcomp.Lexer.Skip.{comment_loop, get_comment}
use axcomp.Lexer.Comments.Depth.{
  close, ends, begins, close-step, newlines, newlines-tail, NoEof, NoEof-tail, length-tail, before,
  get-tail,
}

abbrev pub unterminated : Location → Result Lexer
unterminated place = err (lexical place (codes "Unterminated comment"))

module _ (ts : List Token) (o : Option Bool) where
  abbrev at : List ℕ → ℕ → ℕ → Lexer
  at = before ts o

  -- The loop has read to the end of its comment, `left` is the text behind it.
  record Closes (f : ℕ) (cs : List ℕ) (l p : ℕ) : Type 0 where
    left : List ℕ
    line : ℕ
    column : ℕ
    runs : comment_loop f (at cs l p) ≡ ok (at left line column)
    shorter : length left ≤ length cs
    valid : NoEof left
    lines : line + newlines left ≡ l + newlines cs
    depth : (d : ℕ) → close (suc d) cs ≡ close d left

  record Unclosed (f : ℕ) (cs : List ℕ) (l p : ℕ) : Type 0 where
    place : Location
    runs : comment_loop f (at cs l p) ≡ unterminated place
    depth : (d : ℕ) → close (suc d) cs ≡ none

  -- One round of the loop on a character that is not the end.
  comment_loop-step :
      (f a : ℕ) (cs : List ℕ) (l p : ℕ)
      → (a == eof) ≡ false
      → comment_loop (suc f) (at (a ∷ cs) l p) ≡ (
          if ends a cs
          then ok (get (at cs l (p + 1))).1
          else ((if begins a cs
                then comment_loop f (get (at cs l (p + 1))).1
                else ok (at cs l (p + 1)))
              >>= λ lx2. comment_loop f (if a == b'\n' then set_newline lx2 else lx2)))
  unfolding comment_loop get peek
  comment_loop-step f a cs l p h = rw h refl

  abbrev Outcome : ℕ → List ℕ → ℕ → ℕ → Type 0
  Outcome f cs l p = Closes f cs l p ⊎ Unclosed f cs l p

  outcome_end :
      (f a : ℕ) (cs : List ℕ) (l p : ℕ)
      → (a == eof) ≡ false
      → NoEof cs
      → ends a cs ≡ true
      → Closes (suc f) (a ∷ cs) l p
  outcome_end f a cs l p real v e =
      let (p', moved) = get-tail ts o cs l (p + 1) in
      let short = length-tail cs in
      let same = newlines-tail cs b')' (ground arith) refl in
      record {
        left = tail cs;
        line = l;
        column = p';
        runs = comment_loop-step f a cs l p real ∙ rw (e, moved) refl;
        shorter = omega arith;
        valid = NoEof-tail cs v;
        lines = ground arith;
        depth = λ d. close-step d a cs ∙ rw e refl;
      }

  -- A nested comment, and then the rest of the outer one.
  outcome_begin :
      (f a : ℕ) (cs : List ℕ) (l p p' : ℕ)
      → (a == eof) ≡ false
      → (ends a cs ≡ false) × (begins a cs ≡ true)
      → (get (at cs l (p + 1))).1 ≡ at (tail cs) l p'
      → Outcome f (tail cs) l p'
      → ((c : Closes f (tail cs) l p') → Outcome f c.left c.line c.column)
      → Outcome (suc f) (a ∷ cs) l p
  outcome_begin f a cs l p p' real (e, b) moved (inr u) next = inr (record {
    place = u.place;
    runs = comment_loop-step f a cs l p real ∙ rw (e, b, moved, u.runs) refl;
    depth = λ d. close-step d a cs ∙ rw (e, b) (u.depth (suc d));
  })
  outcome_begin f a cs l p p' real (e, b) moved (inl c) next =
      let plain : (a == b'\n') ≡ false = ground arith in
      let same = newlines-tail cs b'*' (ground arith) refl in
      let short = length-tail cs in
      let here = comment_loop-step f a cs l p real ∙ rw (e, b, moved, c.runs, plain) refl in
      elim (next c) [
        | inl c2 ↦ inl (record {
          left = c2.left;
          line = c2.line;
          column = c2.column;
          runs = here ∙ c2.runs;
          shorter = omega (arith, c.shorter, c2.shorter);
          valid = c2.valid;
          lines = ground (arith, c.lines, c2.lines);
          depth = λ d. close-step d a cs ∙ rw (e, b) (c.depth (suc d) ∙ c2.depth d);
        })
        | inr u2 ↦ inr (record {
          place = u2.place;
          runs = here ∙ u2.runs;
          depth = λ d. close-step d a cs ∙ rw (e, b) (c.depth (suc d) ∙ u2.depth d);
        })
      ]

  outcome_other :
      (f a : ℕ) (cs : List ℕ) (l p l1 p1 : ℕ)
      → (a == eof) ≡ false
      → (ends a cs ≡ false) × (begins a cs ≡ false)
      → (if a == b'\n' then set_newline (at cs l (p + 1)) else at cs l (p + 1)) ≡ at cs l1 p1
      → l1 ≡ l + newlines (a ∷ [])
      → Outcome f cs l1 p1
      → Outcome (suc f) (a ∷ cs) l p
  outcome_other f a cs l p l1 p1 real (e, b) moved counted next =
      let here = comment_loop-step f a cs l p real ∙ rw (e, b, moved) refl in
      elim next [
        | inl c ↦ inl (record {
          left = c.left;
          line = c.line;
          column = c.column;
          runs = here ∙ c.runs;
          shorter = omega (arith, c.shorter);
          valid = c.valid;
          lines = ground (arith, c.lines);
          depth = λ d. close-step d a cs ∙ rw (e, b) (c.depth d);
        })
        | inr u ↦ inr (record {
          place = u.place;
          runs = here ∙ u.runs;
          depth = λ d. close-step d a cs ∙ rw (e, b) (u.depth d);
        })
      ]

  outcome : (f : ℕ) (cs : List ℕ) (l p : ℕ) → length cs < f → NoEof cs → Outcome f cs l p
  unfolding comment_loop get close
  outcome zero cs l p h v = elim h [ ]
  outcome (suc f) [] l p h v =
      inr (record { place = record { line_no = l; char_pos = p }; runs = refl; depth = λ d. refl })
  outcome (suc f) (a ∷ cs) l p h (real, v) = elim (Bool-cases (ends a cs)) [
    | inl e ↦ inl (outcome_end f a cs l p real v e)
    | inr e ↦ elim (Bool-cases (begins a cs)) [
      | inl b ↦
          let (p', moved) = get-tail ts o cs l (p + 1) in
          let short = length-tail cs in
          outcome_begin f a cs l p p' real (e, b) moved
            (outcome f (tail cs) l p' (omega arith) (NoEof-tail cs v))
            λ c. outcome f c.left c.line c.column (omega (arith, c.shorter)) c.valid
      | inr b ↦ elim (Bool-cases (a == b'\n')) [
        | inl n ↦
            outcome_other f a cs l p (l + 1) 0 real (e, b) (rw n refl) (rw n refl)
              (outcome f cs (l + 1) 0 (omega arith) v)
        | inr n ↦
            outcome_other f a cs l p l (p + 1) real (e, b) (rw n refl) (rw n (omega arith))
              (outcome f cs l (p + 1) (omega arith) v)
      ]
    ]
  ]

-- `get_comment` behind a `(` reads exactly to the end of the comment, nested comments included: with
-- fuel for the text it leaves what the count of open comments leaves, and has counted the lines that
-- it passed, or it refuses the text where the count finds no end.
pub get_comment_nesting :
    (ts : List Token) (o : Option Bool) (f : ℕ) (cs : List ℕ) (l p : ℕ)
    → length cs < f
    → NoEof cs
    → ((left : List ℕ) × (line : ℕ) × (column : ℕ) × (close 1 cs ≡ some left)
        × (get_comment f (before ts o (b'*' ∷ cs) l p) ≡ ok (before ts o left line column))
        × (line + newlines left ≡ l + newlines cs))
      ⊎ ((place : Location) × (close 1 cs ≡ none)
          × (get_comment f (before ts o (b'*' ∷ cs) l p) ≡ unterminated place))
unfolding get_comment get close
get_comment_nesting ts o f cs l p h v = elim (outcome ts o f cs l (p + 1) h v) [
  | inl c ↦ inl (c.left, c.line, c.column, c.depth 0, c.runs, c.lines)
  | inr u ↦ inr (u.place, u.depth 0, u.runs)
]
