-- ===== src/Parser/Module.antt =====
-- Procedures and modules: src/compiler/parser.cc.
use axcomp.Prelude.{
  ℕ, zero, suc, List, [], ◌∷◌, ◌++◌, Option, none, some, if◌then◌else◌, Text, text_eq, codes,
}
use axcomp.Error.{out_of_fuel}
use axcomp.Token.{
  ident, comma, semicolon, period, assign, caret, kw_procedure, kw_begin, kw_end, kw_module,
  kw_import,
}
use axcomp.Attr.{Attr}
use axcomp.Types.{module_of}
use axcomp.Ast.Expr.{AstIdentifier}
use axcomp.Ast.Stmt.{Statements, no_stats}
use axcomp.Ast.Decl.{
  AstProc, AstProcedure, procedure, forward, Procedures, no_procedures, proc, AstModule,
}
use axcomp.Parser.State.{
  Library, Symbol, Parse, ◌>>=◌, ◌>>◌, pure, throw, next, peek, put, push_frame, pop_frame,
  get_token, is_type,
}
use axcomp.Parser.Basic.{parse_identifier}
use axcomp.Parser.Stmt.{parse_statement_block, module_ends}
use axcomp.Parser.Decl.{parse_proc, parse_declaration, forward_symbol}

abbrev pub module_symbol : Text → List Attr → Symbol
module_symbol name attrs = record { type = module_of name; attrs = attrs }

-- The name behind `END`.
abbrev pub check_end : Text → Text → Text → Parse (Unit {0})
check_end msg tok_val name = if text_eq tok_val name then pure tt else throw msg

module _ (lib : Library) where
  -- The statements of a procedure or a module.
  unfoldable pub parse_body : ℕ → Parse Statements
  parse_body f = do
    tok ← peek lib
    if is_type tok kw_begin
        then (do get_token lib kw_begin; parse_statement_block lib f module_ends)
        else pure no_stats

  unfoldable pub parse_procedure_forward : ℕ → Parse AstProc
  parse_procedure_forward f = do
    next lib
    p ← parse_proc lib f
    put p.name.value forward_symbol
    pure p

  unfoldable mutual
    pub parse_procedure : ℕ → Parse AstProcedure
    parse_procedure zero s = out_of_fuel
    parse_procedure (suc f) s =
        (do
          p ← parse_proc lib f
          push_frame p.name.value
          decs ← parse_declaration lib f
          ps ← parse_procedures f
          ss ← parse_body f
          pop_frame
          get_token lib kw_end
          tok ← get_token lib ident
          check_end
              (codes "END name: "
                ++ tok.val
                ++ codes " doesn't match procedure name: "
                ++ p.name.value)
              tok.val p.name.value
          get_token lib semicolon
          put p.name.value forward_symbol
          pure (procedure p decs ps ss))
          s

    -- The loop on the procedures.
    pub parse_procedures : ℕ → Parse Procedures
    parse_procedures zero s = out_of_fuel
    parse_procedures (suc f) s =
        (do
          tok ← peek lib
          if is_type tok kw_procedure
              then (do
                next lib
                after ← peek lib
                p ←
                    (if is_type after caret
                      then (parse_procedure_forward f >>= λ p. pure (forward p))
                      else parse_procedure f)
                rest ← parse_procedures f
                pure (proc p rest))
              else pure no_procedures)
          s

  -- An import, with the symbol that it puts into the table.
  unfoldable pub parse_one_import : Parse (AstIdentifier × Option AstIdentifier)
  parse_one_import = do
    id ← parse_identifier lib
    tok ← peek lib
    if is_type tok assign
        then (do
          next lib
          second ← parse_identifier lib
          put id.value (module_symbol second.value (Attr.global_var ∷ []))
          pure (second, some id))
        else do put id.value (module_symbol id.value (Attr.global_var ∷ [])); pure (id, none)

  -- `parse_import`, and its loop.
  unfoldable pub import_list : ℕ → Parse (List (AstIdentifier × Option AstIdentifier))
  import_list zero s = out_of_fuel
  import_list (suc f) s =
      (do
        i ← parse_one_import
        tok ← peek lib
        if is_type tok comma
            then (do get_token lib comma; rest ← import_list f; pure (i ∷ rest))
            else pure (i ∷ []))
        s

  unfoldable pub parse_import : ℕ → Parse (List (AstIdentifier × Option AstIdentifier))
  parse_import f = do next lib; is ← import_list f; get_token lib semicolon; pure is

  unfoldable pub parse_module : ℕ → Parse AstModule
  parse_module f = do
    get_token lib kw_module
    name ← get_token lib ident
    put name.val (module_symbol name.val [])
    get_token lib semicolon
    tok ← peek lib
    imports ←
        (if is_type tok kw_import then (parse_import f >>= λ is. pure (some is)) else pure none)
    decs ← parse_declaration lib f
    ps ← parse_procedures f
    ss ← parse_body f
    get_token lib kw_end
    last ← get_token lib ident
    check_end
        (codes "END identifier name: "
          ++ last.val
          ++ codes " doesn't match module name: "
          ++ name.val)
        last.val name.val
    get_token lib period
    pure (record { name = name.val; imports = imports; decs = decs; procedures = ps; stats = ss })
