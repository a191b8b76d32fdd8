-- ===== src/Tests/Inspecting.antt =====
-- The inspector at concrete inputs: src/compiler/inspector.cc.
use axcomp.Prelude.{
  ℕ, ◌≡◌, refl, Bool, true, false, List, [], ◌∷◌, ◌++◌, Option, none, some, get_elem?, Text, codes,
  text_eq, ◌==◌, if◌then◌else◌,
}
use axcomp.Error.{ok}
use axcomp.Token.{plus, greater, kw_div}
use axcomp.Attr.{Attr, cnst, local_var, has_attr, global_var}
use axcomp.Types.{TypeNode, TypeId, simple, array_of}
use axcomp.TypeTable.{TypeTable, initialise, check2}
use axcomp.TypeTable
use axcomp.TypeTable.Rules.{int_type, bool_type}
use axcomp.SymbolTable.Map.{lookup, insert}
use axcomp.SymbolTable.Frames
use axcomp.SymbolTable.Frames.{Frames, initial}
use axcomp.SymbolTable.Frames.Invariant.{IsValid}
use axcomp.SymbolTable.Frames.Steps.{start, next, putting, Reach-IsValid}
use axcomp.SymbolTable.Frames.Scoping.{visible}
use axcomp.Importer.{Symbol}
use axcomp.Ast.Expr.{
  AstIdentifier, AstExpr, relation, simple_expr, no_adds, add, term, no_mults, mult, integer,
  designated, designator, no_selectors, plain,
}
use axcomp.Ast.Stmt.{no_stats, stat, return_stat}
use axcomp.Ast.Decl.{AstProc, AstDeclaration, Procedures, no_procedures, proc, procedure, AstModule}
use axcomp.Ast.TypeExpr.{AstType, named}
use axcomp.Inspector.State.{State}
use axcomp.Inspector.Fold.{eval_expr}
use axcomp.Inspector.Designator.{is_numeric}
use axcomp.Inspector.Expr.{visit_expr, visit_designator}
use axcomp.Inspector.Modules.{Reader, read, absent}
use axcomp.Inspector.Decl.{visit_procedures, visit_module}
use axcomp.Inspector.Keeps.Moves.{Restored, Ran}
use axcomp.Inspector.Keeps.Procedures.{last_of, visit_procedures-Ran, visit_module-Ran}
use axcomp.Inspector.Typing.{
  IsNamed, plain_name, HasExpr, HasSimple, HasAdds, HasTerm, HasMults, HasFactor,
}
use axcomp.Inspector.Typing.Gives.{Gives, At}
use axcomp.Inspector.Typing.Constants.{divides, Folds, scope_of, visit_expr-At, eval_expr-constant}
use axcomp.Inspector.Typing.Indexed.{HasFlags, indexed, visit_designator-indexed}
use axcomp.Tests.Ascii.{ascii}

-- The constant `k` is 5, and the variable `a` an ARRAY 3 OF INTEGER.
abbrev k_symbol : Symbol
k_symbol = record { type = some int_type; attrs = cnst ∷ []; const_value = some 5 }

abbrev a_symbol : Symbol
a_symbol = record { type = some 13; attrs = local_var ∷ []; const_value = none }

abbrev declared : Frames ℕ
declared = record {
  tables =
      record { table = (codes "k", 0) ∷ (codes "a", 1) ∷ []; next = none; free_variables = [] }
      ∷ [];
  frame_map = (codes ".", 0) ∷ [];
  frame_stack = 0 ∷ [];
  current_table = some 0;
}

declared-IsValid : IsValid declared
unfolding Frames.put Frames.initial Frames.push_frame axcomp.SymbolTable.Store.put
    axcomp.SymbolTable.Store.modify insert lookup text_eq
declared-IsValid =
    Reach-IsValid (next (next start (putting (codes "k") 0 refl)) (putting (codes "a") 1 refl))

abbrev with_array : TypeTable
with_array = record {
  types = (codes "INTEGER[3]", 13) ∷ initialise.types;
  heap = initialise.heap ++ array_of int_type (3 ∷ []) ∷ [];
}

abbrev inspected : State
inspected = record {
  symbols = declared;
  store = k_symbol ∷ a_symbol ∷ [];
  types = with_array;
  errors = [];
  is_const = false;
  is_lvalue = false;
  is_qualid = false;
  qualid_error = false;
  last_type = none;
  last_proc = none;
  variable_type = global_var;
  pointer_types = [];
  closures = [];
  cache = [];
}

abbrev k_name : AstIdentifier
k_name = record { value = codes "k"; attrs = [] }

abbrev a_name : AstIdentifier
a_name = record { value = codes "a"; attrs = [] }

k-IsNamed : IsNamed 2 (scope_of inspected) (codes "k") int_type true
unfolding visible lookup axcomp.SymbolTable.Store.Chain.scopes
    axcomp.SymbolTable.Store.Chain.lookup_scopes axcomp.Types.Names.get_name TypeTable.resolve
    TypeTable.resolve_loop initialise insert text_eq has_attr axcomp.Attr.ordinal
k-IsNamed = record {
  symbol = 0;
  object = k_symbol;
  declared = int_type;
  type_name = codes "INTEGER";
  node = simple TypeId.integer (codes "INTEGER");
  stands = refl;
  there = refl;
  typed = refl;
  named = refl;
  resolved = refl;
  has_node = refl;
  constant = refl;
}

a-IsNamed : IsNamed 2 (scope_of inspected) (codes "a") 13 false
unfolding visible lookup axcomp.SymbolTable.Store.Chain.scopes
    axcomp.SymbolTable.Store.Chain.lookup_scopes axcomp.Types.Names.get_name TypeTable.resolve
    TypeTable.resolve_loop initialise insert text_eq has_attr axcomp.Attr.ordinal
    axcomp.Prelude.decimal_on
a-IsNamed = record {
  symbol = 1;
  object = a_symbol;
  declared = 13;
  type_name = codes "INTEGER[3]";
  node = array_of int_type (3 ∷ []);
  stands = refl;
  there = refl;
  typed = refl;
  named = refl;
  resolved = refl;
  has_node = refl;
  constant = refl;
}

-- `k + 2`, and `k + 2 > 1`.
abbrev sum : AstExpr
sum = plain (
    simple_expr none (term (designated (designator (plain_name k_name) no_selectors)) no_mults)
      (add plus (term (integer 2 false) no_mults) no_adds))

abbrev comparison : AstExpr
comparison =
    relation
      (simple_expr none (term (designated (designator (plain_name k_name) no_selectors)) no_mults)
        (add plus (term (integer 2 false) no_mults) no_adds))
      greater (simple_expr none (term (integer 1 false) no_mults) no_adds)

rule-plus : check2 2 with_array plus int_type int_type ≡ ok (some int_type)
unfolding check2 axcomp.Types.Names.get_name initialise TypeTable.resolve text_eq
    TypeTable.resolve_loop lookup insert TypeTable.find_rule axcomp.Token.ordinal
rule-plus = refl

rule-greater : check2 2 with_array greater int_type int_type ≡ ok (some bool_type)
unfolding check2 axcomp.Types.Names.get_name initialise TypeTable.resolve text_eq
    TypeTable.resolve_loop lookup insert TypeTable.find_rule axcomp.Token.ordinal
rule-greater = refl

sum-HasSimple :
    HasSimple 2
      (scope_of inspected)
      (simple_expr none
        (term (designated (designator (plain_name k_name) no_selectors)) no_mults)
        (add plus (term (integer 2 false) no_mults) no_adds))
      int_type
      true
sum-HasSimple =
    HasSimple.simple_expr (HasTerm.term (HasFactor.name k-IsNamed) HasMults.no_mults)
      (HasAdds.add (HasTerm.term HasFactor.integer HasMults.no_mults) rule-plus HasAdds.no_adds)

visit_expr-At_example :
    Gives
      (some bool_type)
      (At (scope_of inspected) [] bool_type true)
      (visit_expr ascii 2 comparison inspected)
visit_expr-At_example = visit_expr-At ascii 2 inspected declared-IsValid (
    HasExpr.relation sum-HasSimple
      (HasSimple.simple_expr (HasTerm.term HasFactor.integer HasMults.no_mults) HasAdds.no_adds)
      rule-greater)

-- `k DIV 0`
abbrev by_zero : AstExpr
by_zero = plain (
    simple_expr none
      (term (designated (designator (plain_name k_name) no_selectors))
        (mult kw_div (integer 0 false) no_mults))
      no_adds)

rule-div : check2 2 with_array kw_div int_type int_type ≡ ok (some int_type)
unfolding check2 axcomp.Types.Names.get_name initialise TypeTable.resolve text_eq
    TypeTable.resolve_loop lookup insert TypeTable.find_rule axcomp.Token.ordinal
rule-div = refl

eval_expr-constant_example :
    Folds
      (scope_of inspected)
      []
      (divides by_zero ≡ true)
      (true ≡ true)
      (eval_expr by_zero inspected)
eval_expr-constant_example = eval_expr-constant inspected declared-IsValid (
    HasExpr.plain (
      HasSimple.simple_expr
        (HasTerm.term (HasFactor.name k-IsNamed)
          (HasMults.mult HasFactor.integer rule-div HasMults.no_mults))
        HasAdds.no_adds))

-- `a[7]`
visit_designator-indexed_example :
    Gives tt
      (HasFlags true false (some int_type))
      (visit_designator ascii 2 (indexed a_name 7) inspected)
unfolding axcomp.Types.Names.get_name TypeTable.resolve TypeTable.resolve_loop initialise insert
    lookup text_eq is_numeric axcomp.Types.id_eq axcomp.Types.ordinal
visit_designator-indexed_example =
    visit_designator-indexed ascii 2 a_name 7 inspected declared-IsValid a-IsNamed refl refl
      (record {
        type_name = codes "INTEGER";
        resolved = int_type;
        node = simple TypeId.integer (codes "INTEGER");
        named = refl;
        resolves = refl;
        has_node = refl;
      })

-- A procedure without parameters.
abbrev header : Text → Option AstType → AstProc
header name type = record {
  name = record { value = name; attrs = [] };
  return_type = type;
  receiver = none;
  params = [];
}

abbrev nothing : AstDeclaration
nothing = record { type = none; cnst = none; var = none }

abbrev inner : AstProc
inner = header (codes "inner") none

-- A function that returns `k + 2`, with a local procedure.
abbrev outer : Procedures
outer =
    proc
      (procedure
        (header (codes "outer")
          (some (named (plain_name (record { value = codes "INTEGER"; attrs = [] })))))
        nothing (proc (procedure inner nothing no_procedures no_stats) no_procedures)
        (stat (return_stat (some sum)) no_stats))
      no_procedures

visit_procedures-Ran_example :
    Ran (Restored inspected (some inner)) inspected (visit_procedures ascii 2 outer inspected)
unfolding last_of
visit_procedures-Ran_example = visit_procedures-Ran ascii 2 outer inspected declared-IsValid

-- One definition file, of the module `Lib`, which declares a name for a symbol that is there.
abbrev files : Reader
files name types store cache = ok (record {
  found = if text_eq name (codes "Lib") then read declared else absent;
  added = [];
  types = types;
  store = store;
  cache = cache;
})

-- A module that imports `Lib`, and then finds it in the cache.
abbrev importing : AstModule
importing = record {
  name = codes "Nested";
  imports = some (
      (record { value = codes "Lib"; attrs = [] }, none)
      ∷ (record { value = codes "Lib"; attrs = [] }, none)
      ∷ []);
  decs = nothing;
  procedures = outer;
  stats = no_stats;
}

visit_module-Ran_example :
    Ran (Restored inspected none) inspected (visit_module ascii 2 files importing inspected)
visit_module-Ran_example = visit_module-Ran ascii 2 files importing inspected declared-IsValid
