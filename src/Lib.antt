-- ===== src/Lib.antt =====
-- The front end of axcomp, a compiler for Oberon, modelled for verification.
--
-- The program reads a text in UTF-8, splits it into tokens (src/compiler/lexer.cc), parses them
-- into a syntax tree, types the tree by a table of symbols (src/compiler/symboltable.hh) and
-- the types of the language (src/compiler/types/), and hands it to LLVM. The lexer is asked for
-- one token at a time by the parser, which may look one token ahead; the symbol table is a
-- stack of frames that the later passes push and pop; types are shared objects that these
-- tables hold.
--
-- Files and what they model:
-- The module Prelude: the names and lemmas that all modules share; a `std::string` is the list
-- of its bytes.
-- The module Error: src/compiler/location.hh and src/compiler/error.hh. Exceptions are values
-- of `Result`, whose third outcome `out_of_fuel` marks a bound on a loop that was too small.
-- The module Token: src/compiler/token.hh and src/compiler/token.cc.
-- The module Lexer: the class LexerUTF8 of src/compiler/lexer.cc. Unicode holds what the code
-- calls of ICU, UTF8-CPP and the C locale, as a parameter; Tables the tables of keywords and of
-- single characters; State the members and the reads of one character; Skip white space and
-- comments; Scan numbers, identifiers and strings; Directive the switches in `<* *>`; Tokenize
-- the methods `get_token`, `peek_token` and `push_token`. Ends, Stack, Keywords, Comments and
-- EndOfText hold the proofs. The loops take fuel, and `get_token` gives two units more than the
-- text has characters left, since each turn of a loop reads one.
-- The module SymbolTable: src/compiler/symboltable.hh. Store is the class SymbolTable with its
-- tables as indices into a store, Frames the class FrameTable. The walk from a table along
-- `next` takes the table's index plus one as fuel, since a parent is created before its child.
-- The module Types: src/compiler/types/. The objects are nodes of a heap; Equiv is
-- `Type_::equiv`, Records the fields of RecordType, Names the printed types, Enums the values
-- of EnumType. A call of `equiv` takes fuel for the depth of its calls, and the theorems name
-- the fuel that is enough, as the walk has no bound of its own.
-- The module Attr: src/compiler/attr.hh.
-- The module Ast: the nodes of src/compiler/ast/ as data types, with the fields that the parser
-- sets; a list of nodes is a data type of its own where the node holds a list of itself.
-- The module Printer: ASTPrinter of src/compiler/printer.cc, where Level holds the level of
-- indentation, and DefPrinter of src/compiler/defprinter.cc in Definition. The parser calls it
-- for the name of a procedure. Levels and Exports hold the proofs.
-- The module Parser: the class Parser of src/compiler/parser.cc. State holds the lexer and the
-- table of symbols with a monad for their changes; Basic, Expr, TypeExpr, Stmt, Decl and Module
-- hold one function for each procedure, and one for each of its loops; Definition is the class
-- DefParser of src/compiler/defparser.cc. Literals and Names have theorems on numbers and on
-- qualified names, Ends and its children the proof that all of it ends. Each call takes one
-- unit of the fuel that its caller has; twenty units for each character and token that is left
-- are enough, since fewer than twenty calls lie between two tokens that are taken.
-- The module TypeTable: src/compiler/typetable.hh and src/compiler/typetable.cc. Rules holds
-- the rules of the operators as they are registered; Commutes and Resolve the proofs. `resolve`
-- takes fuel for its loop: the rank of the name, where one falls along the aliases.
-- The module Importer: src/compiler/importer.cc and src/compiler/symbol.hh: the transfer of a
-- module's symbols (Transfer) and the search path (Paths).
-- The module Inspector: src/compiler/inspector.hh and src/compiler/inspector.cc, the pass that
-- checks the types. State has the members of the class with the tables that it has references
-- of, and a monad for their changes, in which a `TypeError` that is thrown is an outcome of its
-- own, as it keeps what was changed before it. A symbol and a type are indices into heaps,
-- since the tables share them. Words is the arithmetic of `Int`, Fold `eval_const_int`, where a
-- division without a quotient is a fault, Modules `find_module` of src/compiler/importer.cc,
-- Names the visits of names, Designator and Calls the parts of the visits of designators and of
-- calls that visit nothing themselves, and Expr, TypeExpr, Stmt and Decl the visits of
-- expressions, types, statements and declarations, one function for each visit and one for each
-- loop. The visits end with the tree; their fuel is passed to `equiv`, to `resolve` and to the
-- walk along the bases of a record, whose loops have no bound. Keeps has rules for what visits
-- keep, and Typing the rules of types with the proofs on them.
-- The module Tests: runs on concrete inputs, and the theorems at concrete inputs.
--
-- Numbers: `line_no` and `char_pos` have no upper bound here; a wchar_t is its 32-bit pattern.
-- Not modelled: the importer's search for definition files, `read_module`, whose outcome for a
-- name is a parameter: it has tables of symbols of its own and shares types, symbols, cache and
-- errors with its caller; the sizes of types; the locations of nodes, the names of types in
-- messages, and the messages of `debug`; what the inspector notes on nodes for the generator of
-- code alone; the module's own name that is written over an alias in a node that is visited
-- twice; the free variables that are noted in the type of a procedure; code generation, which
-- calls LLVM alone; the runtime and the command line, which call the C library; what only
-- prints (`dump`, `operator<<`).
pub mod Prelude
pub mod Token
pub mod Error
pub mod Lexer
pub mod SymbolTable
pub mod Types
pub mod Attr
pub mod Ast
pub mod Printer
pub mod Parser
pub mod TypeTable
pub mod Importer
pub mod Inspector
pub mod Tests
