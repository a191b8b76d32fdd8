-- ===== src/Ast/Expr.antt =====
-- Expressions: src/compiler/ast/ast_basic.hh and src/compiler/ast/ast_expr.hh.
use axcomp.Prelude.{ℕ, Bool, List, Option, Text}
use axcomp.Attr.{Attr}
use axcomp.Token.{TokenType}

-- `ASTIdentifier_`
pub record AstIdentifier : Type 0 where
  pub value : Text
  pub attrs : List Attr

-- `ASTQualident_`: the empty `qual` stands for none.
pub record AstQualident : Type 0 where
  pub qual : Text
  pub id : AstIdentifier

-- The tree from `ASTExpr_` down to `ASTDesignator_`. The vectors in it are data types of their own:
-- `Adds` and `Mults` the members `rest`, `Selectors` those of a designator, `ArrayRef` and `Exprs`
-- lists of expressions, and `Labels` of the variants of `ASTSimpleExpr` and `ASTRange`.
mutual
  pub data AstExpr : Type 0 where
    plain : AstSimpleExpr → AstExpr
    relation : AstSimpleExpr → TokenType → AstSimpleExpr → AstExpr

  pub data AstSimpleExpr : Type 0 where
    simple_expr : Option TokenType → AstTerm → Adds → AstSimpleExpr

  pub data Adds : Type 0 where
    no_adds : Adds
    add : TokenType → AstTerm → Adds → Adds

  pub data AstTerm : Type 0 where
    term : AstFactor → Mults → AstTerm

  pub data Mults : Type 0 where
    no_mults : Mults
    mult : TokenType → AstFactor → Mults → Mults

  -- `negation` is the factor whose flag `is_not` is set. A real has the text of its token, and the
  -- value as the bit pattern of a double; a string its value and its delimiter.
  pub data AstFactor : Type 0 where
    designated : AstDesignator → AstFactor
    integer : ℕ → Bool → AstFactor
    real : ℕ → Text → AstFactor
    parenthesised : AstExpr → AstFactor
    called : AstCall → AstFactor
    boolean : Bool → AstFactor
    character : ℕ → Bool → AstFactor
    string : Text → ℕ → AstFactor
    set : Labels → AstFactor
    nil : AstFactor
    negation : AstFactor → AstFactor

  pub data AstDesignator : Type 0 where
    designator : AstQualident → Selectors → AstDesignator

  pub data Selectors : Type 0 where
    no_selectors : Selectors
    array_ref : ArrayRef → Selectors → Selectors
    field_ref : AstIdentifier → Selectors → Selectors
    pointer_ref : Selectors → Selectors

  pub data ArrayRef : Type 0 where
    no_indices : ArrayRef
    index : AstSimpleExpr → ArrayRef → ArrayRef

  pub data AstCall : Type 0 where
    call : AstDesignator → Exprs → AstCall

  pub data Exprs : Type 0 where
    no_exprs : Exprs
    argument : AstExpr → Exprs → Exprs

  pub data Labels : Type 0 where
    no_labels : Labels
    labelled : AstLabel → Labels → Labels

  pub data AstLabel : Type 0 where
    single : AstSimpleExpr → AstLabel
    range : AstSimpleExpr → AstSimpleExpr → AstLabel
