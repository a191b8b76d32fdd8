-- ===== src/Parser/Ends/Basic.antt =====
-- Identifiers and literals end: src/compiler/parser.cc.
use axcomp.Prelude.{
  ℕ, ◌+◌, ◌≤◌, ◌≡◌, refl, arith, Bool, true, false, ◌∷◌, Option, none, some, [], Text,
  if◌then◌else◌,
}
use axcomp.Error.{Ends, Ends-mono, returns}
use axcomp.Attr.{Attr}
use axcomp.Token.{TokenType, Token, type_eq, ident, period, asterix, dash, hexinteger}
use axcomp.Token
use axcomp.Lexer.Unicode.{IsUnicode}
use axcomp.Lexer.State.{available, weight, weight-le, available-next_token}
use axcomp.Lexer.Tokenize
use axcomp.Ast.Expr.{AstIdentifier, AstQualident}
use axcomp.Parser.State.{
  Library, Stod, value, invalid_argument, out_of_range, State, ◌>>◌, pure, lift_result, push,
  is_type,
}
use axcomp.Parser.Basic.{
  set_marker, module_markers, set_attrs, parse_identifier, qualified, parse_qualident, is_module,
  parse_integer, parse_real, stod_result, string_of, parse_char, parse_string, parse_boolean,
  parse_nil, identifier,
}
use axcomp.Parser.Ends.{
  Kept, Kept-trans, Kept-same, After, Takes, Sees, Takes-pure, Ends-run, Takes-bind, Takes-throw,
  Takes-lift, Takes-if, Sees-if, Sees-any,
}
use axcomp.Parser.Ends.Tables.{find-Takes}
use axcomp.Parser.Ends.Tokens.{
  weight-type, next-Takes, next-run, Sees-next, Takes-peek, get_token-Takes,
}

stod_result-Takes : (n : ℕ) (s : Text) (r : Stod) → Takes n 0 (stod_result s r)
stod_result-Takes n s (value v) = Takes-pure n _
stod_result-Takes n s invalid_argument = Takes-throw _
stod_result-Takes n s out_of_range = Takes-throw _

string_of-Takes : (n : ℕ) (s : Text) → Takes n 0 (lift_result (string_of s))
string_of-Takes n [] = Takes-lift n (string_of []) (λ e. cc e)
string_of-Takes n (c ∷ s) = Takes-lift n (string_of (c ∷ s)) (λ e. cc e)

module _ (lib : Library) (good : IsUnicode lib.unicode) where
  set_marker-Takes :
      (n : ℕ) (id : AstIdentifier) (o : Option Attr) → Takes n 0 (set_marker lib id o)
  set_marker-Takes n id none = Takes-pure n id
  set_marker-Takes n id (some a) = Takes-bind 0 (next-Takes lib good n) λ _ m le. Takes-pure m _

  pub set_attrs-Takes : (n : ℕ) (id : AstIdentifier) → Takes n 0 (set_attrs lib id)
  unfolding set_attrs
  set_attrs-Takes n id =
      Takes-peek lib good λ tok. Sees-any (set_marker-Takes n id (module_markers tok.type))

  pub parse_identifier-Takes : (n : ℕ) → Takes n 1 (parse_identifier lib)
  unfolding parse_identifier Token.ordinal
  parse_identifier-Takes n =
      Takes-bind 1 (get_token-Takes lib good n ident refl) λ tok m le. Takes-pure m _

  -- Two tokens may be put back, where one was read.
  qualified-run :
      (first dot : Token) (s : State)
      → Ends
          (λ r. (available r.1.lexer ≤ available s.lexer + 1) × Kept s.symbols r.1.symbols)
          (qualified lib first dot s)
  unfolding qualified push Tokenize.push_token Token.ordinal
  qualified-run first dot s =
      Ends-run (get_token-Takes lib good (available s.lexer) ident refl s (omega arith)) λ id s1 a1.
        Ends-run (find-Takes (available s1.lexer) first.val s1 (omega arith))
          λ res s2 a2. named id s1 s2 (is_module res) a1 a2
    where
      named :
          (id : Token) (s1 s2 : State) (b : Bool)
          → After 1 s s1
          → After 0 s1 s2
          → Ends
              (λ r. (available r.1.lexer ≤ available s.lexer + 1) × Kept s.symbols r.1.symbols)
              ((if b
                  then pure {A = AstQualident} (record { qual = first.val; id = identifier id.val })
                  else do push id; push dot; pure (record { qual = []; id = identifier first.val }))
                s2)
      named id s1 s2 true a1 a2 =
          let less1 = a1.less in
          let less2 = a2.less in returns (omega arith, Kept-trans a1.kept a2.kept)
      named id s1 s2 false a1 a2 =
          let less1 = a1.less in
          let less2 = a2.less in
          let count1 = available-next_token id s2.lexer.next_token s2.lexer in
          let count2 = available-next_token dot (id ∷ s2.lexer.next_token) s2.lexer in
          returns
            (omega (arith, count1, count2, weight-le id, weight-le dot), Kept-trans a1.kept a2.kept)

  pub parse_qualident-Takes : (n : ℕ) → Takes n 1 (parse_qualident lib)
  unfolding parse_qualident Token.ordinal
  parse_qualident-Takes n = Takes-bind 1 (get_token-Takes lib good n ident refl) λ first m le.
      Takes-peek lib good λ tok.
        Sees-if (is_type tok period)
          (λ dot s ts e bound.
            next-run lib good _ tok s ts (weight-type tok period dot refl) e λ s1 less same.
              Ends-mono (qualified-run first tok s1) λ r (more, kept). record {
                less = omega arith;
                kept = Kept-trans (Kept-same same) kept;
              })
          λ _. Sees-any (Takes-pure m _)

  pub parse_integer-Takes : (n : ℕ) → Takes n 1 (parse_integer lib)
  unfolding parse_integer Token.ordinal
  parse_integer-Takes n = Takes-peek lib good λ tok.
      Sees-if (is_type tok hexinteger)
        (λ e. Sees-next lib good (weight-type tok hexinteger e refl) λ _ m le. Takes-pure m _)
        λ _.
          Sees-if (is_type tok Token.integer)
            (λ e.
              Sees-next lib good (weight-type tok Token.integer e refl) λ _ m le. Takes-pure m _)
            λ _. Sees-any (Takes-throw _)

  pub parse_real-Sees : (tok : Token) (n : ℕ) → weight tok ≡ 1 → Sees tok n 1 (parse_real lib)
  unfolding parse_real
  parse_real-Sees tok n one = Sees-next lib good one λ t m le. stod_result-Takes m t.val _

  pub parse_char-Sees : (tok : Token) (n : ℕ) → weight tok ≡ 1 → Sees tok n 1 (parse_char lib)
  unfolding parse_char
  parse_char-Sees tok n one =
      Sees-next lib good one
        λ t m le. Takes-if (is_type t Token.hexchr) (λ _. Takes-pure m _) (λ _. Takes-pure m _)

  pub parse_string-Sees : (tok : Token) (n : ℕ) → weight tok ≡ 1 → Sees tok n 1 (parse_string lib)
  unfolding parse_string
  parse_string-Sees tok n one = Sees-next lib good one λ t m le. string_of-Takes m t.val

  pub parse_boolean-Sees : (tok : Token) (n : ℕ) → weight tok ≡ 1 → Sees tok n 1 (parse_boolean lib)
  unfolding parse_boolean
  parse_boolean-Sees tok n one = Sees-next lib good one λ t m le. Takes-pure m _

  pub parse_nil-Takes : (n : ℕ) → Takes n 1 (parse_nil lib)
  unfolding parse_nil Token.ordinal
  parse_nil-Takes n =
      Takes-bind 1 (get_token-Takes lib good n Token.kw_nil refl) λ _ m le. Takes-pure m _
