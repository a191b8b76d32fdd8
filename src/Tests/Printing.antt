-- ===== src/Tests/Printing.antt =====
-- The printers at concrete trees: src/compiler/printer.cc and src/compiler/defprinter.cc.
use axcomp.Prelude.{◌+◌, ◌≡◌, refl, false, List, [], ◌∷◌, none, some, codes, String}
use axcomp.Attr.{Attr, global, read_only}
use axcomp.Ast.Expr.{AstIdentifier, AstExpr, plain, simple_expr, no_adds, term, no_mults, integer}
use axcomp.Ast.TypeExpr.{AstType, named, record_type, no_fields}
use axcomp.Ast.Stmt.{return_stat, stat, no_stats}
use axcomp.Ast.Decl.{procedure, proc, no_procedures, AstModule}
use axcomp.Printer.TypeExpr.{print_type}
use axcomp.Printer.Levels.{empty_records, print_type-level}
use axcomp.Printer.Definition
use axcomp.Printer.Exports.{exports, print_module-exports}
use axcomp.Tests.Ascii.{ascii}

abbrev empty_record : AstType
empty_record = record_type none no_fields

print_type-level_example : 1 ≡ 0 + empty_records empty_record
unfolding print_type axcomp.Printer.Level.◌<+>◌ axcomp.Printer.Level.emit axcomp.Printer.Level.push
print_type-level_example = print_type-level ascii 2 empty_record 0 (codes "RECORD\n") 1 refl

abbrev marked_id : String → List Attr → AstIdentifier
marked_id s attrs = record { value = codes s; attrs = attrs }

abbrev number : AstExpr
number = plain (simple_expr none (term (integer 3 false) no_mults) no_adds)

abbrev named_type : String → AstType
named_type s = named (record { qual = []; id = marked_id s [] })

-- Of the module's names, `n`, `v` and `f` are marked.
abbrev sample : AstModule
sample = record {
  name = codes "a";
  imports = some ((marked_id "b" [], none) ∷ []);
  decs = record {
    type = none;
    cnst = some ((marked_id "k" [], number) ∷ (marked_id "n" (global ∷ []), number) ∷ []);
    var = some (
        (marked_id "v" (read_only ∷ []), named_type "REAL")
        ∷ (marked_id "w" [], named_type "CHAR")
        ∷ []);
  };
  procedures =
      proc
        (procedure
          (record {
            name = marked_id "f" (global ∷ []);
            return_type = none;
            receiver = none;
            params = [];
          })
          (record { type = none; cnst = none; var = none }) no_procedures
          (stat (return_stat none) no_stats))
        no_procedures;
  stats = no_stats;
}

print_module-exports_example :
    Definition.print_module ascii 0 (exports sample) ≡ Definition.print_module ascii 0 sample
print_module-exports_example = print_module-exports ascii 0 sample
