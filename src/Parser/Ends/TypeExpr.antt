-- ===== src/Parser/Ends/TypeExpr.antt =====
-- Types end: src/compiler/parser.cc.
use axcomp.Prelude.{ℕ, zero, suc, ◌+◌, ◌*◌, ◌≤◌, refl, arith}
use axcomp.Token.{
  TokenType, Token, ident, comma, l_paren, r_paren, colon, semicolon, kw_array, kw_record,
  kw_pointer, kw_of, kw_to, kw_end,
}
use axcomp.Token
use axcomp.Lexer.Unicode.{IsUnicode}
use axcomp.Parser.State.{Library, is_type}
use axcomp.Parser.TypeExpr.{
  identifiers, parse_ident_list, enum_values, parse_enumeration, dimensions, parse_base, parse_type,
  type_of, parse_fields,
}
use axcomp.Parser.Ends.{no_fuel, Takes, Takes-pure, Takes-bind, Takes-le, Takes-throw, Takes-if}
use axcomp.Parser.Ends.Tokens.{next-Takes, peek-Takes, get_token-Takes}
use axcomp.Parser.Ends.Basic.{parse_identifier-Takes, parse_qualident-Takes, set_attrs-Takes}
use axcomp.Parser.Ends.Expr.All.{expressions-end}

module _ (lib : Library) (good : IsUnicode lib.unicode) where
  pub identifiers-Takes : (f n : ℕ) → 20 * n + 1 ≤ f → Takes n 0 (identifiers lib f)
  unfolding identifiers
  identifiers-Takes zero n h = no_fuel _ (omega arith) h
  identifiers-Takes (suc f) n h = Takes-bind 0 (peek-Takes lib good n) λ tok m le.
      Takes-if (is_type tok comma)
        (λ _. Takes-bind 0 (next-Takes lib good m) λ _ m1 le1.
          Takes-bind 1 (parse_identifier-Takes lib good m1) λ bare m2 le2.
            Takes-bind 0 (set_attrs-Takes lib good m2 bare) λ id m3 le3.
              Takes-bind 0 (identifiers-Takes f m3 (omega arith)) λ rest m4 le4. Takes-pure m4 _)
        λ _. Takes-pure m _

  pub parse_ident_list-Takes : (f n : ℕ) → 20 * n ≤ f → Takes n 1 (parse_ident_list lib f)
  unfolding parse_ident_list
  parse_ident_list-Takes f n h = Takes-bind 1 (parse_identifier-Takes lib good n) λ bare m le.
      Takes-bind 0 (set_attrs-Takes lib good m bare) λ id m1 le1.
        Takes-bind 0 (identifiers-Takes f m1 (omega arith)) λ rest m2 le2. Takes-pure m2 _

  enum_values-Takes : (f n : ℕ) → 20 * n + 1 ≤ f → Takes n 1 (enum_values lib f)
  unfolding enum_values
  enum_values-Takes zero n h = no_fuel _ (omega arith) h
  enum_values-Takes (suc f) n h = Takes-bind 1 (parse_identifier-Takes lib good n) λ id m le.
      Takes-bind 0 (peek-Takes lib good m) λ tok m1 le1.
        Takes-bind 0
          (Takes-if (is_type tok comma)
            (λ _. Takes-bind 0 (next-Takes lib good m1) λ _ m2 le2. peek-Takes lib good m2)
            λ _. Takes-pure m1 tok)
          λ after m2 le2.
            Takes-if (is_type after r_paren) (λ _. Takes-pure m2 _)
              λ _.
                Takes-if (is_type after ident)
                  (λ _.
                    Takes-bind 0 (Takes-le 1 (omega arith) (enum_values-Takes f m2 (omega arith)))
                      λ rest m3 le3. Takes-pure m3 _)
                  λ _. Takes-throw _

  parse_enumeration-Takes : (f n : ℕ) → 20 * n ≤ f → Takes n 1 (parse_enumeration lib f)
  unfolding parse_enumeration Token.ordinal
  parse_enumeration-Takes f n h = Takes-bind 1 (get_token-Takes lib good n l_paren refl) λ _ m le.
      Takes-bind 0 (peek-Takes lib good m) λ tok m1 le1.
        Takes-if (is_type tok ident)
          (λ _.
            Takes-bind 0 (Takes-le 1 (omega arith) (enum_values-Takes f m1 (omega arith)))
              λ values m2 le2.
                Takes-bind 0 (Takes-le 1 (omega arith) (get_token-Takes lib good m2 r_paren refl))
                  λ _ m3 le3. Takes-pure m3 _)
          λ _. Takes-throw _

  dimensions-Takes : (f n : ℕ) → 20 * n + 6 ≤ f → Takes n 0 (dimensions lib f)
  unfolding dimensions
  dimensions-Takes zero n h = no_fuel _ (omega arith) h
  dimensions-Takes (suc f) n h = Takes-bind 0 (peek-Takes lib good n) λ tok m le.
      Takes-if (is_type tok kw_of) (λ _. Takes-pure m _)
        λ _.
          let exprs = expressions-end lib good f in
          Takes-bind 1 (exprs.simpleexpr m (omega arith)) λ e m1 le1.
            Takes-bind 0 (peek-Takes lib good m1) λ after m2 le2.
              Takes-if (is_type after comma)
                (λ _. Takes-bind 0 (next-Takes lib good m2) λ _ m3 le3.
                  Takes-bind 0 (dimensions-Takes f m3 (omega arith)) λ rest m4 le4. Takes-pure m4 _)
                λ _. Takes-pure m2 _

  parse_base-Takes : (n : ℕ) → Takes n 0 (parse_base lib)
  unfolding parse_base Token.ordinal
  parse_base-Takes n = Takes-bind 0 (peek-Takes lib good n) λ tok m le.
      Takes-if (is_type tok l_paren)
        (λ _. Takes-bind 0 (next-Takes lib good m) λ _ m1 le1.
          Takes-bind 0 (Takes-le 1 (omega arith) (parse_qualident-Takes lib good m1)) λ base m2 le2.
            Takes-bind 0 (Takes-le 1 (omega arith) (get_token-Takes lib good m2 r_paren refl))
              λ _ m3 le3. Takes-pure m3 _)
        λ _. Takes-pure m _

  -- What holds of the procedures that call each other, on fuel `f`.
  pub record TypeEnds (f : ℕ) : Type 0 where
    pub type : (n : ℕ) → 20 * n + 2 ≤ f → Takes n 1 (parse_type lib f)
    pub type_case : (n : ℕ) (t : TokenType) → 20 * n + 1 ≤ f → Takes n 1 (type_of lib f t)
    pub fields : (n : ℕ) → 20 * n + 1 ≤ f → Takes n 0 (parse_fields lib f)

  module _ (f : ℕ) (below : TypeEnds f) where
    parse_type-Takes : (n : ℕ) → 20 * n + 2 ≤ suc f → Takes n 1 (parse_type lib (suc f))
    unfolding parse_type
    parse_type-Takes n h =
        Takes-bind 0 (peek-Takes lib good n) λ tok m le. below.type_case m tok.type (omega arith)

    type_of-Takes : (n : ℕ) (t : TokenType) → 20 * n + 1 ≤ suc f → Takes n 1 (type_of lib (suc f) t)
    unfolding type_of Token.ordinal
    type_of-Takes n l_paren h = parse_enumeration-Takes f n (omega arith)
    type_of-Takes n kw_array h = Takes-bind 1 (get_token-Takes lib good n kw_array refl) λ _ m le.
        Takes-bind 0 (dimensions-Takes f m (omega arith)) λ dims m1 le1.
          Takes-bind 0 (Takes-le 1 (omega arith) (get_token-Takes lib good m1 kw_of refl))
            λ _ m2 le2.
              Takes-bind 0 (Takes-le 1 (omega arith) (below.type m2 (omega arith)))
                λ t m3 le3. Takes-pure m3 _
    type_of-Takes n kw_record h = Takes-bind 1 (get_token-Takes lib good n kw_record refl) λ _ m le.
        Takes-bind 0 (parse_base-Takes m) λ base m1 le1.
          Takes-bind 0 (below.fields m1 (omega arith)) λ fs m2 le2.
            Takes-bind 0 (Takes-le 1 (omega arith) (get_token-Takes lib good m2 kw_end refl))
              λ _ m3 le3. Takes-pure m3 _
    type_of-Takes n kw_pointer h =
        Takes-bind 1 (get_token-Takes lib good n kw_pointer refl) λ _ m le.
          Takes-bind 0 (Takes-le 1 (omega arith) (get_token-Takes lib good m kw_to refl))
            λ _ m1 le1.
              Takes-bind 0 (Takes-le 1 (omega arith) (below.type m1 (omega arith)))
                λ t m2 le2. Takes-pure m2 _
    type_of-Takes n _ h = Takes-bind 1 (parse_qualident-Takes lib good n) λ q m le. Takes-pure m _

    parse_fields-Takes : (n : ℕ) → 20 * n + 1 ≤ suc f → Takes n 0 (parse_fields lib (suc f))
    unfolding parse_fields Token.ordinal
    parse_fields-Takes n h = Takes-bind 0 (peek-Takes lib good n) λ tok m le.
        Takes-if (is_type tok ident)
          (λ _. Takes-bind 1 (parse_ident_list-Takes f m (omega arith)) λ ids m1 le1.
            Takes-bind 0 (Takes-le 1 (omega arith) (get_token-Takes lib good m1 colon refl))
              λ _ m2 le2.
                Takes-bind 0 (Takes-le 1 (omega arith) (below.type m2 (omega arith))) λ t m3 le3.
                  Takes-bind 0 (peek-Takes lib good m3) λ after m4 le4.
                    Takes-bind 0
                      (Takes-if (is_type after semicolon) (λ _. next-Takes lib good m4)
                        λ _. Takes-pure m4 _)
                      λ _ m5 le5.
                        Takes-bind 0 (below.fields m5 (omega arith)) λ rest m6 le6. Takes-pure m6 _)
          λ _. Takes-pure m _

  -- Types end.
  pub types-end : (f : ℕ) → TypeEnds f
  types-end zero = record {
    type = λ n h. no_fuel _ (omega arith) h;
    type_case = λ n t h. no_fuel _ (omega arith) h;
    fields = λ n h. no_fuel _ (omega arith) h;
  }
  types-end (suc f) =
      let below = types-end f in
      record {
        type = parse_type-Takes f below;
        type_case = type_of-Takes f below;
        fields = parse_fields-Takes f below;
      }
