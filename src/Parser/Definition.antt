-- ===== src/Parser/Definition.antt =====
-- Definition files: the class DefParser of src/compiler/defparser.cc.
use axcomp.Prelude.{ℕ, zero, suc, [], ◌++◌, none, some, if◌then◌else◌, codes}
use axcomp.Error.{out_of_fuel}
use axcomp.Token.{ident, semicolon, colon, period, l_paren, kw_definition, kw_procedure, kw_end}
use axcomp.Ast.Stmt.{no_stats}
use axcomp.Ast.Decl.{
  AstDeclaration, AstProcedure, procedure, Procedures, no_procedures, proc, AstModule,
}
use axcomp.Parser.State.{Library, Parse, ◌>>=◌, ◌>>◌, pure, next, peek, get_token, is_type}
use axcomp.Parser.Basic.{parse_identifier, set_attrs}
use axcomp.Parser.TypeExpr.{parse_type}
use axcomp.Parser.Decl.{parse_declaration, parse_parameters}
use axcomp.Parser.Module.{check_end}

-- The declarations of a procedure are a null pointer here.
abbrev pub no_declarations : AstDeclaration
no_declarations = record { type = none; cnst = none; var = none }

module _ (lib : Library) where
  unfoldable pub parse_procedure : ℕ → Parse AstProcedure
  parse_procedure f = do
    next lib
    bare ← parse_identifier lib
    name ← set_attrs lib bare
    open_paren ← peek lib
    params ← (if is_type open_paren l_paren then parse_parameters lib f else pure [])
    after ← peek lib
    return_type ←
        (if is_type after colon
          then (next lib >> parse_type lib f >>= λ t. pure (some t))
          else pure none)
    get_token lib semicolon
    pure (
        procedure
          (record { name = name; return_type = return_type; receiver = none; params = params })
          no_declarations no_procedures no_stats)

  -- The loop on the procedures.
  unfoldable pub parse_procedures : ℕ → Parse Procedures
  parse_procedures zero s = out_of_fuel
  parse_procedures (suc f) s =
      (do
        tok ← peek lib
        if is_type tok kw_procedure
            then (do p ← parse_procedure f; rest ← parse_procedures f; pure (proc p rest))
            else pure no_procedures)
        s

  unfoldable pub parse_module : ℕ → Parse AstModule
  parse_module f = do
    get_token lib kw_definition
    name ← get_token lib ident
    get_token lib semicolon
    decs ← parse_declaration lib f
    ps ← parse_procedures f
    get_token lib kw_end
    last ← get_token lib ident
    check_end
        (codes "END identifier name: "
          ++ last.val
          ++ codes " doesn't match module name: "
          ++ name.val)
        last.val name.val
    get_token lib period
    pure
        (record { name = name.val; imports = none; decs = decs; procedures = ps; stats = no_stats })
