-- ===== src/Parser/Decl.antt =====
-- Declarations: src/compiler/parser.cc.
use axcomp.Prelude.{
  ℕ, zero, suc, Bool, List, [], ◌∷◌, ◌++◌, Option, none, some, if◌then◌else◌, codes,
}
use axcomp.Error.{out_of_fuel}
use axcomp.Token.{
  ident, comma, colon, semicolon, equals, l_paren, r_paren, kw_const, kw_type, kw_var,
}
use axcomp.Attr.{Attr, insert_attr}
use axcomp.Types.{TypeId, simple, forward_of}
use axcomp.Ast.Expr.{AstIdentifier, AstExpr}
use axcomp.Ast.TypeExpr.{AstType}
use axcomp.Ast.Decl.{VarDec, AstProc, AstDeclaration}
use axcomp.Parser.State.{
  Library, Symbol, Parse, ◌>>=◌, ◌>>◌, pure, throw, next, peek, put, get_token, is_type,
}
use axcomp.Parser.Basic.{parse_identifier, set_attrs}
use axcomp.Parser.Expr.{parse_expr}
use axcomp.Parser.TypeExpr.{parse_type, parse_ident_list}

-- `mkSym` of `TypeTable::VoidType` and of a `ProcedureFwdType`
abbrev pub void_symbol : List Attr → Symbol
void_symbol attrs = record { type = simple TypeId.void (codes "void"); attrs = attrs }

abbrev pub forward_symbol : Symbol
forward_symbol = record {
  type = forward_of (record { ret = none; receiver = none; params = [] });
  attrs = [];
}

-- A declaration of each of the names, before those that follow.
abbrev pub declared : List AstIdentifier → AstType → List VarDec → List VarDec
declared [] t ds = ds
declared (id ∷ ids) t ds = (id, t) ∷ declared ids t ds

-- The lists of a kind of declaration are joined.
abbrev pub joined_to {ℓ} : {A : Type ℓ} → Option (List A) → List A → Option (List A)
joined_to none ds = some ds
joined_to (some old) ds = some (old ++ ds)

abbrev pub marked_var : Bool → AstIdentifier → AstIdentifier
marked_var is_var id = if is_var then record id { attrs = insert_attr Attr.var id.attrs } else id

-- `symbols.put` for each of the names.
unfoldable pub put_names : List AstIdentifier → Parse (Unit {0})
put_names [] = pure tt
put_names (id ∷ ids) = do put id.value (void_symbol []); put_names ids

module _ (lib : Library) where
  -- `parse_const`, and its loop.
  unfoldable pub const_decs : ℕ → Parse (List (AstIdentifier × AstExpr))
  const_decs zero s = out_of_fuel
  const_decs (suc f) s =
      (do
        tok ← peek lib
        if is_type tok ident
            then (do
              bare ← parse_identifier lib
              id ← set_attrs lib bare
              get_token lib equals
              e ← parse_expr lib f
              get_token lib semicolon
              put id.value (void_symbol (Attr.cnst ∷ []))
              rest ← const_decs f
              pure ((id, e) ∷ rest))
            else pure [])
        s

  unfoldable pub parse_const : ℕ → Parse (List (AstIdentifier × AstExpr))
  parse_const f = next lib >> const_decs f

  -- `parse_typedec`, and its loop.
  unfoldable pub type_decs : ℕ → Parse (List VarDec)
  type_decs zero s = out_of_fuel
  type_decs (suc f) s =
      (do
        tok ← peek lib
        if is_type tok ident
            then (do
              bare ← parse_identifier lib
              id ← set_attrs lib bare
              get_token lib equals
              t ← parse_type lib f
              get_token lib semicolon
              rest ← type_decs f
              pure ((id, t) ∷ rest))
            else pure [])
        s

  unfoldable pub parse_typedec : ℕ → Parse (List VarDec)
  parse_typedec f = next lib >> type_decs f

  -- `parse_var`, and its loop.
  unfoldable pub var_decs : ℕ → Parse (List VarDec)
  var_decs zero s = out_of_fuel
  var_decs (suc f) s =
      (do
        tok ← peek lib
        if is_type tok ident
            then (do
              ids ← parse_ident_list lib f
              get_token lib colon
              t ← parse_type lib f
              get_token lib semicolon
              put_names ids
              rest ← var_decs f
              pure (declared ids t rest))
            else pure [])
        s

  unfoldable pub parse_var : ℕ → Parse (List VarDec)
  parse_var f = next lib >> var_decs f

  -- `parse_declaration`: the loop with the declarations so far.
  unfoldable pub declaration_loop : ℕ → AstDeclaration → Parse AstDeclaration
  declaration_loop zero decs s = out_of_fuel
  declaration_loop (suc f) decs s =
      (do
        tok ← peek lib
        if is_type tok kw_const
            then (do
              ds ← parse_const f
              declaration_loop f (record decs { cnst = joined_to decs.cnst ds }))
            else if is_type tok kw_type
            then (do
              ds ← parse_typedec f
              declaration_loop f (record decs { type = joined_to decs.type ds }))
            else if is_type tok kw_var
            then (do
              ds ← parse_var f
              declaration_loop f (record decs { var = joined_to decs.var ds }))
            else pure decs)
        s

  unfoldable pub parse_declaration : ℕ → Parse AstDeclaration
  parse_declaration f = declaration_loop f (record { type = none; cnst = none; var = none })

  -- `parse_receiver`
  unfoldable pub parse_receiver : Parse (AstIdentifier × AstIdentifier)
  parse_receiver = do
    next lib
    tok ← peek lib
    (if is_type tok kw_var then next lib else pure tok)
    id ← parse_identifier lib
    get_token lib colon
    type ← parse_identifier lib
    get_token lib r_paren
    pure (marked_var (is_type tok kw_var) id, type)

  -- The names of a parameter, behind the first.
  unfoldable pub more_names : ℕ → Bool → Parse (List AstIdentifier)
  more_names zero is_var s = out_of_fuel
  more_names (suc f) is_var s =
      (do
        tok ← peek lib
        if is_type tok comma
            then (do
              next lib
              id ← parse_identifier lib
              rest ← more_names f is_var
              pure (marked_var is_var id ∷ rest))
            else pure [])
        s

  -- `parse_parameters`, and its loop.
  unfoldable pub param_decs : ℕ → Parse (List VarDec)
  param_decs zero s = out_of_fuel
  param_decs (suc f) s =
      (do
        tok ← peek lib
        if is_type tok r_paren then pure [] else do
          (if is_type tok kw_var then next lib else pure tok)
          id ← parse_identifier lib
          ids ← more_names f (is_type tok kw_var)
          get_token lib colon
          t ← parse_type lib f
          after ← peek lib
          if is_type after semicolon
              then (do
                next lib
                rest ← param_decs f
                pure (declared (marked_var (is_type tok kw_var) id ∷ ids) t rest))
              else if is_type after r_paren
              then pure (declared (marked_var (is_type tok kw_var) id ∷ ids) t [])
              else throw (codes "expecting ; or ) in parameter list"))
        s

  unfoldable pub parse_parameters : ℕ → Parse (List VarDec)
  parse_parameters f = do next lib; ps ← param_decs f; next lib; pure ps

  -- `parse_proc`
  unfoldable pub parse_proc : ℕ → Parse AstProc
  parse_proc f = do
    tok ← peek lib
    receiver ← (if is_type tok l_paren then (parse_receiver >>= λ r. pure (some r)) else pure none)
    bare ← parse_identifier lib
    name ← set_attrs lib bare
    open_paren ← peek lib
    params ← (if is_type open_paren l_paren then parse_parameters f else pure [])
    after ← peek lib
    return_type ←
        (if is_type after colon
          then (next lib >> parse_type lib f >>= λ t. pure (some t))
          else pure none)
    get_token lib semicolon
    pure (record { name = name; return_type = return_type; receiver = receiver; params = params })
