-- ===== src/Parser/Stmt.antt =====
-- Statements: src/compiler/parser.cc.
use axcomp.Prelude.{ℕ, zero, suc, Bool, ◌||◌, ◌++◌, Option, none, some, if◌then◌else◌, codes}
use axcomp.Error.{out_of_fuel}
use axcomp.Token.{
  TokenType, Token, type_eq, token_text, ident, semicolon, comma, colon, bar, assign, l_paren,
  kw_return, kw_if, kw_case, kw_for, kw_while, kw_repeat, kw_exit, kw_loop, kw_begin, kw_end,
  kw_elsif, kw_else, kw_then, kw_of, kw_to, kw_by, kw_do, kw_until,
}
use axcomp.Ast.Expr.{AstExpr, AstDesignator, Labels, no_labels, labelled}
use axcomp.Ast.Stmt.{
  AstStatement, assignment, return_stat, exit, call_stat, if_stat, case_stat, for_stat, while_stat,
  repeat_stat, loop, block, Statements, no_stats, stat, Elsifs, no_elsifs, elsif, ElseClause,
  no_else, else_clause, CaseElements, no_elements, element,
}
use axcomp.Parser.State.{
  Library, Parse, ◌>>=◌, ◌>>◌, pure, throw, fuel_out, next, peek, get_token, is_type,
}
use axcomp.Parser.Basic.{parse_identifier}
use axcomp.Parser.Expr.{
  parse_expr, parse_simpleexpr, parse_designator, parse_call, parse_case_label,
}

-- `module_ends`, `if_ends`, `case_element_ends` and `repeat_ends`
abbrev pub module_ends : TokenType → Bool
module_ends t = type_eq t kw_end

abbrev pub if_ends : TokenType → Bool
if_ends t = type_eq t kw_end || type_eq t kw_elsif || type_eq t kw_else

abbrev pub case_element_ends : TokenType → Bool
case_element_ends t = type_eq t bar || type_eq t kw_else || type_eq t kw_end

abbrev pub repeat_ends : TokenType → Bool
repeat_ends t = type_eq t kw_until

module _ (lib : Library) where
  -- A token that is skipped if it is there.
  abbrev pub skip : TokenType → Parse Token
  skip t = do tok ← peek lib; if is_type tok t then next lib else pure tok

  -- The labels of a case, one behind each comma.
  unfoldable pub parse_labels : ℕ → Parse Labels
  parse_labels zero s = out_of_fuel
  parse_labels (suc f) s =
      (do
        l ← parse_case_label lib f
        tok ← peek lib
        if is_type tok comma
            then (do next lib; rest ← parse_labels f; pure (labelled l rest))
            else pure (labelled l no_labels))
        s

  unfoldable pub parse_assignment : ℕ → AstDesignator → Parse AstStatement
  parse_assignment f d = do get_token lib assign; e ← parse_expr lib f; pure (assignment d e)

  unfoldable pub parse_return : ℕ → Parse AstStatement
  parse_return f = do
    get_token lib kw_return
    tok ← peek lib
    if is_type tok semicolon || is_type tok kw_end
        then pure (return_stat none)
        else do e ← parse_expr lib f; pure (return_stat (some e))

  -- A statement that begins with a designator.
  unfoldable pub parse_designated : ℕ → Parse AstStatement
  parse_designated f = do
    d ← parse_designator lib f
    tok ← peek lib
    if is_type tok l_paren || is_type tok semicolon || is_type tok kw_end
        then (do c ← parse_call lib f d; pure (call_stat c))
        else parse_assignment f d

  -- The step of a loop.
  unfoldable pub parse_by : ℕ → Parse (Option AstExpr)
  parse_by f = do
    tok ← peek lib
    if is_type tok kw_by then (do next lib; e ← parse_expr lib f; pure (some e)) else pure none

  unfoldable mutual
    pub parse_statement : ℕ → Parse AstStatement
    parse_statement zero s = out_of_fuel
    parse_statement (suc f) s = (do tok ← peek lib; statement_of f tok tok.type) s

    -- The cases of `parse_statement`, with the procedures that it calls.
    pub statement_of : ℕ → Token → TokenType → Parse AstStatement
    statement_of zero tok t = fuel_out
    statement_of (suc f) tok kw_return = parse_return f
    statement_of (suc f) tok kw_if = do
      get_token lib kw_if
      e ← parse_expr lib f
      get_token lib kw_then
      ss ← parse_statement_block f if_ends
      elsifs ← parse_elsifs f
      else_stats ← parse_else f
      get_token lib kw_end
      pure (if_stat e ss elsifs else_stats)
    statement_of (suc f) tok kw_case = do
      get_token lib kw_case
      e ← parse_simpleexpr lib f
      get_token lib kw_of
      skip bar
      elements ← parse_case_elements f
      after ← peek lib
      else_stats ←
          (if is_type after kw_else
            then (next lib >> parse_statement_block f module_ends)
            else pure no_stats)
      get_token lib kw_end
      pure (case_stat e elements else_stats)
    statement_of (suc f) tok kw_for = do
      get_token lib kw_for
      id ← parse_identifier lib
      get_token lib assign
      first ← parse_expr lib f
      get_token lib kw_to
      last ← parse_expr lib f
      by ← parse_by f
      get_token lib kw_do
      ss ← parse_statement_block f module_ends
      get_token lib kw_end
      pure (for_stat id first last by ss)
    statement_of (suc f) tok kw_while = do
      get_token lib kw_while
      e ← parse_expr lib f
      get_token lib kw_do
      ss ← parse_statement_block f module_ends
      get_token lib kw_end
      pure (while_stat e ss)
    statement_of (suc f) tok kw_repeat = do
      get_token lib kw_repeat
      ss ← parse_statement_block f repeat_ends
      get_token lib kw_until
      e ← parse_expr lib f
      pure (repeat_stat ss e)
    statement_of (suc f) tok kw_exit = do get_token lib kw_exit; pure exit
    statement_of (suc f) tok kw_loop = do
      get_token lib kw_loop
      ss ← parse_statement_block f module_ends
      get_token lib kw_end
      pure (loop ss)
    statement_of (suc f) tok kw_begin = do
      get_token lib kw_begin
      ss ← parse_statement_block f module_ends
      get_token lib kw_end
      pure (block ss)
    statement_of (suc f) tok ident = parse_designated f
    statement_of (suc f) tok _ = throw (codes "Unexpected token: " ++ token_text tok)

    pub parse_statement_block : ℕ → (TokenType → Bool) → Parse Statements
    parse_statement_block zero ends s = out_of_fuel
    parse_statement_block (suc f) ends s =
        (do
          tok ← peek lib
          if is_type tok semicolon
              then (do get_token lib semicolon; parse_statement_block f ends)
              else if ends tok.type
              then pure no_stats
              else do
                first ← parse_statement f
                rest ← parse_statement_block f ends
                pure (stat first rest))
          s

    -- The loop on `ELSIF`.
    pub parse_elsifs : ℕ → Parse Elsifs
    parse_elsifs zero s = out_of_fuel
    parse_elsifs (suc f) s =
        (do
          tok ← peek lib
          if is_type tok kw_elsif
              then (do
                next lib
                e ← parse_expr lib f
                get_token lib kw_then
                ss ← parse_statement_block f if_ends
                rest ← parse_elsifs f
                pure (elsif e ss rest))
              else pure no_elsifs)
          s

    pub parse_else : ℕ → Parse ElseClause
    parse_else zero s = out_of_fuel
    parse_else (suc f) s =
        (do
          tok ← peek lib
          if is_type tok kw_else
              then (do next lib; ss ← parse_statement_block f module_ends; pure (else_clause ss))
              else pure no_else)
          s

    -- The loop of `parse_caseElements`.
    pub parse_case_elements : ℕ → Parse CaseElements
    parse_case_elements zero s = out_of_fuel
    parse_case_elements (suc f) s =
        (do
          tok ← peek lib
          if is_type tok kw_end || is_type tok kw_else then pure no_elements else do
            labels ← (if is_type tok colon then pure no_labels else parse_labels f)
            get_token lib colon
            ss ← parse_statement_block f case_element_ends
            skip bar
            rest ← parse_case_elements f
            pure (element labels ss rest))
          s
