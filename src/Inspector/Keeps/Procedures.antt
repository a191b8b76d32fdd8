-- ===== src/Inspector/Keeps/Procedures.antt =====
-- What the visits of procedures and modules keep, and the procedure that they leave as the last one:
-- `visit(ASTProcedure)` and `visit(ASTModule)` of src/compiler/inspector.cc.
use axcomp.Prelude.{ℕ, suc, Option, none, some}
use axcomp.Lexer.Unicode.{Unicode}
use axcomp.Attr.{global_var, local_var}
use axcomp.Ast.Expr.{AstIdentifier}
use axcomp.Ast.Decl.{
  AstProc, AstProcedure, procedure, forward, Procedures, no_procedures, proc, AstModule,
}
use axcomp.Inspector.State.{State}
use axcomp.Inspector.Decl.{
  in_order, open_procedure, close_procedure, visit_procedure, visit_procedures, visit_import,
  visit_module,
}
use axcomp.SymbolTable.Frames.Invariant.{IsValid}
use axcomp.Inspector.Modules.{Reader}
use axcomp.Inspector.Keeps.Modules.{find_module-Keeps}
use axcomp.Inspector.Keeps.{Keeps}
use axcomp.Inspector.Keeps.Tables.{keeps_rules}
use axcomp.Inspector.Keeps.Stmt.{visit_stats-Keeps}
use axcomp.Inspector.Keeps.Decl.{
  visit_declaration-Keeps, do_proc-Keeps, visit_forward-Keeps, put_receiver-Keeps, put_params-Keeps,
  captures-Keeps, put_closure-Keeps, if_there-Keeps, each-Keeps,
}
use axcomp.Inspector.Keeps.Moves.{
  Ran, Moves, Restored, Moves-Restored, Keeps-Moves, Moves-bind, push_frame-Moves, pop_frame-Moves,
  last_proc-Moves, variable_type-Moves,
}

-- The procedure that was opened last.
unfoldable mutual
  pub last_in : Option AstProc → AstProcedure → Option AstProc
  last_in p (forward q) = p
  last_in p (procedure q decs procs ss) = last_of (some q) procs

  pub last_of : Option AstProc → Procedures → Option AstProc
  last_of p no_procedures = p
  last_of p (proc q qs) = last_of (last_in p q) qs

open_procedure-Moves :
    (u : Unicode) (f : ℕ) (s : State) (n : ℕ) (p : Option AstProc) (q : AstProc)
    → Moves s n p (suc n) (some q) (open_procedure u f q)
unfolding open_procedure
open_procedure-Moves u f s n p q = Moves-bind _ _ (Keeps-Moves _ (do_proc-Keeps u f q)) λ type.
    Moves-bind _ _ (Keeps-Moves _ (search keeps_rules)) λ t.
      Moves-bind _ _ (Keeps-Moves _ (search keeps_rules)) λ i.
        Moves-bind _ _ (Keeps-Moves _ (search keeps_rules)) λ _.
          Moves-bind _ _ (last_proc-Moves (some q)) λ _.
            Moves-bind _ _ (push_frame-Moves q.name.value)
              λ _. Keeps-Moves _ (search (keeps_rules, put_receiver-Keeps, put_params-Keeps))

close_procedure-Moves :
    (s : State) (n : ℕ) (p : Option AstProc) (q : AstProc) (i : ℕ)
    → Moves s (suc n) p n p (close_procedure q i)
unfolding close_procedure
close_procedure-Moves s n p q i = Moves-bind _ _ (Keeps-Moves _ (search keeps_rules)) λ names.
    Moves-bind _ _ (Keeps-Moves _ (captures-Keeps _ (in_order names)))
      λ free. Moves-bind _ _ (Keeps-Moves _ (put_closure-Keeps _ i free)) λ _. pop_frame-Moves

mutual
  unfolding visit_procedure last_in

  visit_procedure-Moves :
      (u : Unicode) (f : ℕ) (s : State) (n : ℕ) (p : Option AstProc) (q : AstProcedure)
      → Moves s n p n (last_in p q) (visit_procedure u f q)
  visit_procedure-Moves u f s n p (forward q) = Keeps-Moves _ (visit_forward-Keeps u f q)
  visit_procedure-Moves u f s n p (procedure q decs procs ss) =
      Moves-bind _ _ (open_procedure-Moves u f s n p q) λ i.
        Moves-bind _ _ (Keeps-Moves _ (visit_declaration-Keeps u f decs)) λ _.
          Moves-bind _ _ (visit_procedures-Moves u f s (suc n) (some q) procs) λ _.
            Moves-bind _ _ (Keeps-Moves _ (search keeps_rules)) λ _.
              Moves-bind _ _ (Keeps-Moves _ (visit_stats-Keeps u f ss))
                λ _. close_procedure-Moves s n (last_of (some q) procs) q i

  visit_procedures-Moves :
      (u : Unicode) (f : ℕ) (s : State) (n : ℕ) (p : Option AstProc) (qs : Procedures)
      → Moves s n p n (last_of p qs) (visit_procedures u f qs)
  visit_procedures-Moves u f s n p no_procedures = Keeps-Moves _ (search keeps_rules)
  visit_procedures-Moves u f s n p (proc q qs) =
      Moves-bind _ _ (visit_procedure-Moves u f s n p q)
        λ _. visit_procedures-Moves u f s n (last_in p q) qs

-- Where the frames are valid, the visit of procedures, whatever is declared in them, returns, throws a
-- `TypeError`, or ends in a fault or without fuel. Where it returns, the stack of frames and the
-- current table are those that it began with, the frames are valid, the errors are those that there
-- were before, or more, and the procedure that statements are checked against is the one that was
-- opened last: a local procedure of the last one, where it has any. Where it throws, the errors of
-- before are still there.
pub visit_procedures-Ran :
    (u : Unicode) (f : ℕ) (qs : Procedures) (s : State)
    → IsValid s.symbols
    → Ran (Restored s (last_of s.last_proc qs)) s (visit_procedures u f qs s)
visit_procedures-Ran u f qs s k =
    Moves-Restored (visit_procedures u f qs) k (visit_procedures-Moves u f s 0 s.last_proc qs)

visit_import-Keeps :
    (u : Unicode) (f : ℕ) (reader : Reader) (i : AstIdentifier × Option AstIdentifier)
    → Keeps (visit_import u f reader i)
unfolding visit_import
visit_import-Keeps u f reader (id, other) = search (keeps_rules, find_module-Keeps)

-- Where the frames are valid, and whatever the definition files of the imported modules are, the visit
-- of a module returns, throws an exception, or ends in a fault or without fuel. Where it returns, the
-- stack of frames and the current table are those that it began with, the frames are valid, the errors
-- are those that there were before, or more, and no procedure is left to check statements against.
-- Where it throws, the errors of before are still there.
pub visit_module-Ran :
    (u : Unicode) (f : ℕ) (reader : Reader) (m : AstModule) (s : State)
    → IsValid s.symbols
    → Ran (Restored s none) s (visit_module u f reader m s)
unfolding visit_module
visit_module-Ran u f reader m s k = Moves-Restored (visit_module u f reader m) k (
    Moves-bind _ _
      (Keeps-Moves _
        (if_there-Keeps _ m.imports λ is. each-Keeps _ is (visit_import-Keeps u f reader)))
      λ _. Moves-bind _ _ (variable_type-Moves global_var) λ _.
        Moves-bind _ _ (Keeps-Moves _ (visit_declaration-Keeps u f m.decs)) λ _.
          Moves-bind _ _ (variable_type-Moves local_var) λ _.
            Moves-bind _ _ (visit_procedures-Moves u f s 0 s.last_proc m.procedures) λ _.
              Moves-bind _ _ (last_proc-Moves none)
                λ _. Keeps-Moves _ (visit_stats-Keeps u f m.stats))
