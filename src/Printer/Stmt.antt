-- ===== src/Printer/Stmt.antt =====
-- Statements as `ASTPrinter` prints them: src/compiler/printer.cc.
use axcomp.Prelude.{ℕ, [], ◌++◌, Bool, true, false, Option, none, some, if◌then◌else◌, Text, codes}
use axcomp.Lexer.Unicode.{Unicode}
use axcomp.Ast.Expr.{AstExpr}
use axcomp.Ast.Stmt.{
  AstStatement, assignment, return_stat, exit, call_stat, if_stat, case_stat, for_stat, while_stat,
  repeat_stat, loop, block, Statements, no_stats, stat, Elsifs, no_elsifs, elsif, ElseClause,
  no_else, else_clause, CaseElements, no_elements, element,
}
use axcomp.Printer.Expr.{print_expr, print_simple, print_designator, print_call, print_labels}
use axcomp.Printer.Level.{Print, ◌<+>◌, emit, shown, push, pop, indent}

abbrev pub print_optional : Unicode → Text → Option AstExpr → Print
print_optional u before none = emit []
print_optional u before (some e) = emit before <+> shown (print_expr u e)

-- A semicolon between two statements.
abbrev pub between : Statements → Text
between no_stats = []
between (stat _ _) = codes ";"

-- A part that is printed unless it has no statements.
abbrev pub unless_empty : Statements → Print → Print
unless_empty no_stats p = emit []
unless_empty (stat _ _) p = p

unfoldable mutual
  pub print_statement : Unicode → ℕ → AstStatement → Print
  print_statement u w (assignment d e) =
      shown (print_designator u d) <+> emit (codes " := ") <+> shown (print_expr u e)
  print_statement u w (return_stat e) = emit (codes "RETURN ") <+> print_optional u [] e
  print_statement u w exit = emit (codes "EXIT")
  print_statement u w (call_stat c) = shown (print_call u c)
  print_statement u w (if_stat e ss elsifs else_part) =
      emit (codes "IF ")
      <+> shown (print_expr u e)
      <+> emit (codes " THEN\n")
      <+> push
      <+> print_stats u w ss
      <+> pop
      <+> print_elsifs u w elsifs
      <+> print_else u w else_part
      <+> indent w
      <+> emit (codes "END")
  print_statement u w (case_stat e elements ss) =
      emit (codes "CASE ")
      <+> shown (print_simple u e)
      <+> emit (codes " OF\n")
      <+> push
      <+> print_elements u w [] elements
      <+> pop
      <+> unless_empty ss
          (indent w <+> emit (codes "ELSE\n") <+> push <+> print_stats u w ss <+> pop)
      <+> indent w
      <+> emit (codes "END")
  print_statement u w (for_stat id first last by ss) =
      emit (codes "FOR " ++ id.value ++ codes " := ")
      <+> shown (print_expr u first)
      <+> emit (codes " TO ")
      <+> shown (print_expr u last)
      <+> print_optional u (codes " BY ") by
      <+> emit (codes " DO\n")
      <+> push
      <+> print_stats u w ss
      <+> pop
      <+> indent w
      <+> emit (codes "END")
  print_statement u w (while_stat e ss) =
      emit (codes "WHILE ")
      <+> shown (print_expr u e)
      <+> emit (codes " DO\n")
      <+> push
      <+> print_stats u w ss
      <+> pop
      <+> indent w
      <+> emit (codes "END")
  print_statement u w (repeat_stat ss e) =
      emit (codes "REPEAT\n")
      <+> push
      <+> print_stats u w ss
      <+> pop
      <+> indent w
      <+> emit (codes "UNTIL ")
      <+> shown (print_expr u e)
  print_statement u w (loop ss) =
      emit (codes "LOOP\n")
      <+> push
      <+> print_stats u w ss
      <+> pop
      <+> indent w
      <+> emit (codes "END")
  print_statement u w (block ss) =
      emit (codes "BEGIN\n")
      <+> push
      <+> print_stats u w ss
      <+> pop
      <+> indent w
      <+> emit (codes "END")

  -- The loop of `print_stats`.
  pub print_stats : Unicode → ℕ → Statements → Print
  print_stats u w no_stats = emit []
  print_stats u w (stat s rest) =
      indent w
      <+> print_statement u w s
      <+> emit (between rest ++ codes "\n")
      <+> print_stats u w rest

  pub print_elsifs : Unicode → ℕ → Elsifs → Print
  print_elsifs u w no_elsifs = emit []
  print_elsifs u w (elsif e ss rest) =
      indent w
      <+> emit (codes "ELSIF ")
      <+> shown (print_expr u e)
      <+> emit (codes " THEN\n")
      <+> push
      <+> print_stats u w ss
      <+> pop
      <+> print_elsifs u w rest

  pub print_else : Unicode → ℕ → ElseClause → Print
  print_else u w no_else = emit []
  print_else u w (else_clause ss) =
      indent w <+> emit (codes "ELSE\n") <+> push <+> print_stats u w ss <+> pop

  -- The loop on the elements of a case, with the bar in front of all but the first.
  pub print_elements : Unicode → ℕ → Text → CaseElements → Print
  print_elements u w bar no_elements = emit []
  print_elements u w bar (element ls ss rest) =
      indent w
      <+> emit bar
      <+> shown (print_labels u (codes ", ") ls)
      <+> emit (codes " : ")
      <+> push
      <+> print_case_stats u w false ss
      <+> pop
      <+> print_elements u w (codes "| ") rest

  -- The statements of an element: the first one stands on the line of the labels.
  pub print_case_stats : Unicode → ℕ → Bool → Statements → Print
  print_case_stats u w later no_stats = emit []
  print_case_stats u w later (stat s rest) =
      (if later then indent w else emit [])
      <+> print_statement u w s
      <+> emit (codes ";\n")
      <+> print_case_stats u w true rest
