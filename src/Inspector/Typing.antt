-- ===== src/Inspector/Typing.antt =====
-- The rules of the types of expressions, which `Inspector` of src/compiler/inspector.cc checks: of
-- expressions without calls, qualified names and selectors.
pub mod Gives
pub mod Complete
pub mod Constants
pub mod Indexed
use axcomp.Prelude.{ℕ, ◌≡◌, Bool, true, false, ◌&&◌, [], Option, none, some, get_elem?, Text}
use axcomp.Error.{ok}
use axcomp.Token.{TokenType, tilde}
use axcomp.Attr.{cnst, has_attr}
use axcomp.Types.{TypeNode}
use axcomp.Types.Equiv.{equiv}
use axcomp.TypeTable.{TypeTable, name_of, resolve, check2}
use axcomp.TypeTable.Rules.{int_type, bool_type, real_type, char_type, set_type, void_type}
use axcomp.Importer.{Symbol, Symbols}
use axcomp.Ast.Expr.{
  AstIdentifier, AstQualident, AstExpr, AstSimpleExpr, Adds, AstTerm, Mults, AstFactor, Labels,
  AstLabel,
}
use axcomp.Ast.Expr
use axcomp.Inspector.Designator.{check_type}
use axcomp.Inspector.Expr.{string_type}

-- What an expression is typed in: the types, the symbols, and the symbol that a name stands for.
pub record Scope : Type 0 where
  pub types : TypeTable
  pub store : Symbols
  pub value : Text → Option ℕ

-- A name that stands for a symbol with a type, and is constant or not.
pub record IsNamed (f : ℕ) (E : Scope) (name : Text) (t : ℕ) (c : Bool) : Type 0 where
  pub symbol : ℕ
  pub object : Symbol
  pub declared : ℕ
  pub type_name : Text
  pub node : TypeNode
  pub stands : E.value name ≡ some symbol
  pub there : get_elem? E.store symbol ≡ some object
  pub typed : object.type ≡ some declared
  pub named : name_of E.types declared ≡ ok type_name
  pub resolved : resolve f E.types type_name ≡ ok (some t)
  pub has_node : get_elem? E.types.heap t ≡ some node
  pub constant : has_attr cnst object.attrs ≡ c

abbrev pub plain_name : AstIdentifier → AstQualident
plain_name id = record { qual = []; id = id }

-- The expression has the type `t`, and is constant or not. For the operands that follow a first one,
-- its type and whether it is constant are given too.
mutual
  pub data HasExpr (f : ℕ) (E : Scope) : AstExpr → ℕ → Bool → Type 0 where
    plain :
        {e : AstSimpleExpr} {t : ℕ} {c : Bool}
        → HasSimple f E e t c
        → HasExpr f E (Expr.plain e) t c
    relation :
        {e d : AstSimpleExpr} {op : TokenType} {l r t : ℕ} {b c : Bool}
        → HasSimple f E e l b
        → HasSimple f E d r c
        → check2 f E.types op l r ≡ ok (some t)
        → HasExpr f E (Expr.relation e op d) t (b && c)

  pub data HasSimple (f : ℕ) (E : Scope) : AstSimpleExpr → ℕ → Bool → Type 0 where
    simple_expr :
        {sign : Option TokenType} {e : AstTerm} {rest : Adds} {l t : ℕ} {b c : Bool}
        → HasTerm f E e l b
        → HasAdds f E l b rest t c
        → HasSimple f E (Expr.simple_expr sign e rest) t c

  pub data HasAdds (f : ℕ) (E : Scope) : ℕ → Bool → Adds → ℕ → Bool → Type 0 where
    no_adds : {t : ℕ} {c : Bool} → HasAdds f E t c Expr.no_adds t c
    add :
        {op : TokenType} {e : AstTerm} {rest : Adds} {l r m t : ℕ} {a b c : Bool}
        → HasTerm f E e r b
        → check2 f E.types op l r ≡ ok (some m)
        → HasAdds f E m (a && b) rest t c
        → HasAdds f E l a (Expr.add op e rest) t c

  pub data HasTerm (f : ℕ) (E : Scope) : AstTerm → ℕ → Bool → Type 0 where
    term :
        {e : AstFactor} {rest : Mults} {l t : ℕ} {b c : Bool}
        → HasFactor f E e l b
        → HasMults f E l b rest t c
        → HasTerm f E (Expr.term e rest) t c

  pub data HasMults (f : ℕ) (E : Scope) : ℕ → Bool → Mults → ℕ → Bool → Type 0 where
    no_mults : {t : ℕ} {c : Bool} → HasMults f E t c Expr.no_mults t c
    mult :
        {op : TokenType} {e : AstFactor} {rest : Mults} {l r m t : ℕ} {a b c : Bool}
        → HasFactor f E e r b
        → check2 f E.types op l r ≡ ok (some m)
        → HasMults f E m (a && b) rest t c
        → HasMults f E l a (Expr.mult op e rest) t c

  pub data HasFactor (f : ℕ) (E : Scope) : AstFactor → ℕ → Bool → Type 0 where
    name :
        {id : AstIdentifier} {t : ℕ} {c : Bool}
        → IsNamed f E id.value t c
        → HasFactor f E (Expr.designated (Expr.designator (plain_name id) Expr.no_selectors)) t c
    integer : {n : ℕ} {hex : Bool} → HasFactor f E (Expr.integer n hex) int_type true
    real : {v : ℕ} {style : Text} → HasFactor f E (Expr.real v style) real_type true
    boolean : {b : Bool} → HasFactor f E (Expr.boolean b) bool_type true
    character : {n : ℕ} {hex : Bool} → HasFactor f E (Expr.character n hex) char_type true
    string : {s : Text} {delim : ℕ} → HasFactor f E (Expr.string s delim) (string_type s) true
    nil : HasFactor f E Expr.nil void_type true
    set :
        {ls : Labels} {c : Bool} → HasLabels f E true ls c → HasFactor f E (Expr.set ls) set_type c
    parenthesised :
        {e : AstExpr} {t : ℕ} {c : Bool}
        → HasExpr f E e t c
        → HasFactor f E (Expr.parenthesised e) t c
    negation :
        {e : AstFactor} {t m : ℕ} {c : Bool}
        → HasFactor f E e t c
        → check_type tilde (some t) ≡ some m
        → HasFactor f E (Expr.negation e) m c

  pub data HasLabels (f : ℕ) (E : Scope) : Bool → Labels → Bool → Type 0 where
    no_labels : {c : Bool} → HasLabels f E c Expr.no_labels c
    single :
        {e : AstSimpleExpr} {ls : Labels} {t : ℕ} {a b c : Bool}
        → HasSimple f E e t b
        → equiv f E.types.heap int_type t ≡ ok true
        → HasLabels f E (a && b) ls c
        → HasLabels f E a (Expr.labelled (Expr.single e) ls) c
    range :
        {e d : AstSimpleExpr} {ls : Labels} {t r : ℕ} {a b b' c : Bool}
        → HasSimple f E e t b
        → equiv f E.types.heap int_type t ≡ ok true
        → HasSimple f E d r b'
        → equiv f E.types.heap int_type r ≡ ok true
        → HasLabels f E (a && b && b') ls c
        → HasLabels f E a (Expr.labelled (Expr.range e d) ls) c
