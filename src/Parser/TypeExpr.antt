-- ===== src/Parser/TypeExpr.antt =====
-- Types: src/compiler/parser.cc.
use axcomp.Prelude.{ℕ, zero, suc, List, [], ◌∷◌, Option, none, some, if◌then◌else◌, codes}
use axcomp.Error.{out_of_fuel}
use axcomp.Token.{
  TokenType, ident, comma, l_paren, r_paren, colon, semicolon, kw_array, kw_record, kw_pointer,
  kw_of, kw_to, kw_end,
}
use axcomp.Ast.Expr.{AstIdentifier, AstQualident, ArrayRef, no_indices, index}
use axcomp.Ast.TypeExpr.{
  AstType, named, array, record_type, pointer_to, enumeration, Fields, no_fields, field,
}
use axcomp.Parser.State.{
  Library, Parse, ◌>>=◌, ◌>>◌, pure, throw, fuel_out, next, peek, get_token, is_type,
}
use axcomp.Parser.Basic.{parse_identifier, parse_qualident, set_attrs}
use axcomp.Parser.Expr.{parse_simpleexpr}

-- A field for each of the names, before those that follow.
abbrev pub fields_of : List AstIdentifier → AstType → Fields → Fields
fields_of [] t fs = fs
fields_of (id ∷ ids) t fs = field id t (fields_of ids t fs)

module _ (lib : Library) where
  -- `parse_identList`, and its loop.
  unfoldable pub identifiers : ℕ → Parse (List AstIdentifier)
  identifiers zero s = out_of_fuel
  identifiers (suc f) s =
      (do
        tok ← peek lib
        if is_type tok comma
            then (do
              next lib
              bare ← parse_identifier lib
              id ← set_attrs lib bare
              rest ← identifiers f
              pure (id ∷ rest))
            else pure [])
        s

  unfoldable pub parse_ident_list : ℕ → Parse (List AstIdentifier)
  parse_ident_list f = do
    bare ← parse_identifier lib
    id ← set_attrs lib bare
    rest ← identifiers f
    pure (id ∷ rest)

  -- `parse_enumeration`, and its loop. A comma may be left out.
  unfoldable pub enum_values : ℕ → Parse (List AstIdentifier)
  enum_values zero s = out_of_fuel
  enum_values (suc f) s =
      (do
        id ← parse_identifier lib
        tok ← peek lib
        after ← (if is_type tok comma then (next lib >> peek lib) else pure tok)
        if is_type after r_paren
            then pure (id ∷ [])
            else if is_type after ident
            then (do rest ← enum_values f; pure (id ∷ rest))
            else throw (codes "Expected identifier in enumeration"))
        s

  unfoldable pub parse_enumeration : ℕ → Parse AstType
  parse_enumeration f = do
    get_token lib l_paren
    tok ← peek lib
    if is_type tok ident
        then (do values ← enum_values f; get_token lib r_paren; pure (enumeration values))
        else throw (codes "Expected identifier in enumeration")

  -- The loop on the dimensions of an array.
  unfoldable pub dimensions : ℕ → Parse ArrayRef
  dimensions zero s = out_of_fuel
  dimensions (suc f) s =
      (do
        tok ← peek lib
        if is_type tok kw_of then pure no_indices else do
          e ← parse_simpleexpr lib f
          after ← peek lib
          if is_type after comma
              then (do next lib; rest ← dimensions f; pure (index e rest))
              else pure (index e no_indices))
        s

  -- The base of a record.
  unfoldable pub parse_base : Parse (Option AstQualident)
  parse_base = do
    tok ← peek lib
    if is_type tok l_paren
        then (do next lib; base ← parse_qualident lib; get_token lib r_paren; pure (some base))
        else pure none

  unfoldable mutual
    pub parse_type : ℕ → Parse AstType
    parse_type zero s = out_of_fuel
    parse_type (suc f) s = (do tok ← peek lib; type_of f tok.type) s

    -- The cases of `parse_type`, with `parse_array`, `parse_record` and `parse_pointer`.
    pub type_of : ℕ → TokenType → Parse AstType
    type_of zero t = fuel_out
    type_of (suc f) l_paren = parse_enumeration f
    type_of (suc f) kw_array = do
      get_token lib kw_array
      dims ← dimensions f
      get_token lib kw_of
      t ← parse_type f
      pure (array dims t)
    type_of (suc f) kw_record = do
      get_token lib kw_record
      base ← parse_base
      fs ← parse_fields f
      get_token lib kw_end
      pure (record_type base fs)
    type_of (suc f) kw_pointer = do
      get_token lib kw_pointer
      get_token lib kw_to
      t ← parse_type f
      pure (pointer_to t)
    type_of (suc f) _ = do q ← parse_qualident lib; pure (named q)

    -- The loop on the fields of a record: it goes on without a semicolon, too.
    pub parse_fields : ℕ → Parse Fields
    parse_fields zero s = out_of_fuel
    parse_fields (suc f) s =
        (do
          tok ← peek lib
          if is_type tok ident
              then (do
                ids ← parse_ident_list f
                get_token lib colon
                t ← parse_type f
                after ← peek lib
                (if is_type after semicolon then next lib else pure after)
                rest ← parse_fields f
                pure (fields_of ids t rest))
              else pure no_fields)
          s
