-- ===== src/Parser/Ends/Definition.antt =====
-- Definition files end: src/compiler/defparser.cc.
use axcomp.Prelude.{ℕ, zero, suc, ◌+◌, ◌*◌, ◌≤◌, ◌<◌, ◌≡◌, ◌≢◌, refl, arith}
use axcomp.Error.{Ends, Ends-mono, Ends-ne-out_of_fuel, out_of_fuel}
use axcomp.Token.{ident, semicolon, colon, period, l_paren, kw_definition, kw_procedure, kw_end}
use axcomp.Token
use axcomp.Lexer.Unicode.{IsUnicode}
use axcomp.Lexer.State.{available}
use axcomp.SymbolTable.Frames.Invariant.{IsValid}
use axcomp.Parser.State.{Library, State, is_type}
use axcomp.Parser.Definition.{parse_procedure, parse_procedures, parse_module}
use axcomp.Parser.Ends.{no_fuel, Takes, Takes-pure, Takes-bind, Takes-le, Takes-if}
use axcomp.Parser.Ends.Tokens.{next-Takes, peek-Takes, get_token-Takes}
use axcomp.Parser.Ends.Basic.{parse_identifier-Takes, set_attrs-Takes}
use axcomp.Parser.Ends.TypeExpr.{types-end}
use axcomp.Parser.Ends.Decl.{expect, parse_declaration-Takes, parse_parameters-Takes}
use axcomp.Parser.Ends.Module.{check_end-Takes}

module _ (lib : Library) (good : IsUnicode lib.unicode) where
  parse_procedure-Takes : (f n : ℕ) → 20 * n ≤ f → Takes n 1 (parse_procedure lib f)
  unfolding parse_procedure Token.ordinal
  parse_procedure-Takes f n h =
      let types = types-end lib good f in
      Takes-bind 0 (next-Takes lib good n) λ _ m1 le1.
        Takes-bind 1 (parse_identifier-Takes lib good m1) λ bare m2 le2.
          Takes-bind 0 (set_attrs-Takes lib good m2 bare) λ name m3 le3.
            Takes-bind 0 (peek-Takes lib good m3) λ open_paren m4 le4.
              Takes-bind 0
                (Takes-if (is_type open_paren l_paren)
                  (λ _. parse_parameters-Takes lib good f m4 (omega arith)) λ _. Takes-pure m4 _)
                λ params m5 le5. Takes-bind 0 (peek-Takes lib good m5) λ after m6 le6.
                  Takes-bind 0
                    (Takes-if (is_type after colon)
                      (λ _.
                        Takes-bind 0
                          (Takes-bind 0 (next-Takes lib good m6)
                            λ _ m7 le7. Takes-le 1 (omega arith) (types.type m7 (omega arith)))
                          λ t m7 le7. Takes-pure m7 _)
                      λ _. Takes-pure m6 _)
                    λ return_type m7 le7.
                      Takes-bind 0 (expect lib good m7 semicolon refl) λ _ m8 le8. Takes-pure m8 _

  parse_procedures-Takes : (f n : ℕ) → 20 * n + 1 ≤ f → Takes n 0 (parse_procedures lib f)
  unfolding parse_procedures
  parse_procedures-Takes zero n h = no_fuel _ (omega arith) h
  parse_procedures-Takes (suc f) n h = Takes-bind 0 (peek-Takes lib good n) λ tok m le.
      Takes-if (is_type tok kw_procedure)
        (λ _. Takes-bind 1 (parse_procedure-Takes f m (omega arith)) λ p m1 le1.
          Takes-bind 0 (parse_procedures-Takes f m1 (omega arith)) λ rest m2 le2. Takes-pure m2 _)
        λ _. Takes-pure m _

  parse_module-Takes : (f n : ℕ) → 20 * n ≤ f → Takes n 1 (parse_module lib f)
  unfolding parse_module Token.ordinal
  parse_module-Takes f n h = Takes-bind 1 (get_token-Takes lib good n kw_definition refl) λ _ m le.
      Takes-bind 0 (expect lib good m ident refl) λ name m1 le1.
        Takes-bind 0 (expect lib good m1 semicolon refl) λ _ m2 le2.
          Takes-bind 0 (parse_declaration-Takes lib good f m2 (omega arith)) λ decs m3 le3.
            Takes-bind 0 (parse_procedures-Takes f m3 (omega arith)) λ ps m4 le4.
              Takes-bind 0 (expect lib good m4 kw_end refl) λ _ m5 le5.
                Takes-bind 0 (expect lib good m5 ident refl) λ last m6 le6.
                  Takes-bind 0 (check_end-Takes m6 _ last.val name.val) λ _ m7 le7.
                    Takes-bind 0 (expect lib good m7 period refl) λ _ m8 le8. Takes-pure m8 _

  -- With the behaviour that ICU and UTF8-CPP document, and with twenty units of fuel for each
  -- character and token that is left, the `parse_module` of DefParser ends, with a module or with an
  -- exception. With a module the stack of frames is what it was, and frames that were valid are valid
  -- again.
  pub parse_definition-Ends :
      (f : ℕ) (s : State)
      → 20 * available s.lexer ≤ f
      → Ends
          (λ r.
            (available r.1.lexer < available s.lexer)
            × (r.1.symbols.frame_stack ≡ s.symbols.frame_stack)
            × (IsValid s.symbols → IsValid r.1.symbols))
          (parse_module lib f s)
        × (parse_module lib f s ≢ out_of_fuel)
  parse_definition-Ends f s h =
      let ends = parse_module-Takes f (available s.lexer) h s (omega arith) in
      (
        Ends-mono ends
            λ r after. let less = after.less in (omega arith, after.kept.stack, after.kept.valid),
        Ends-ne-out_of_fuel ends,
      )
