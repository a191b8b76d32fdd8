-- ===== src/Printer/Levels.antt =====
-- The level of indentation that the print of a type leaves: src/compiler/printer.cc.
use axcomp.Prelude.{
  ℕ, ◌+◌, ◌-◌, ◌≡◌, refl, ap, sym, ◌∙◌, arith, ◌==◌, if◌then◌else◌, Option, none, some, Text, [],
  codes,
}
use axcomp.Lexer.Unicode.{Unicode}
use axcomp.Ast.Expr.{AstIdentifier}
use axcomp.Ast.TypeExpr.{
  AstType, named, array, record_type, pointer_to, enumeration, Fields, no_fields, field,
}
use axcomp.Printer.Level.{Print, ◌<+>◌, emit, shown, push, pop, indent, behind, then_print}
use axcomp.Printer.TypeExpr.{print_type, print_fields, behind_field}

-- The records without fields in a type.
unfoldable mutual
  pub empty_records : AstType → ℕ
  empty_records (named q) = 0
  empty_records (array dims t) = empty_records t
  empty_records (record_type base no_fields) = 1
  empty_records (record_type base (field id t rest)) = empty_records t + field_records rest
  empty_records (pointer_to t) = empty_records t
  empty_records (enumeration ids) = 0

  pub field_records : Fields → ℕ
  field_records no_fields = 0
  field_records (field id t rest) = empty_records t + field_records rest

-- From `m` above a level, the print leaves `n` above it.
abbrev pub Moves : ℕ → ℕ → Print → Type 0
Moves m n p = (l : ℕ) (s : Text) (l' : ℕ) → p (l + m) ≡ some (s, l') → l' ≡ l + n

Moves-seq : (m k n : ℕ) (p q : Print) → Moves m k p → Moves k n q → Moves m n (p <+> q)
unfolding ◌<+>◌
Moves-seq m k n p q hp hq l s l' e = go (p (l + m)) refl e
  where
    second :
        (t : Text) (r : Option (Text × ℕ)) → q (l + k) ≡ r → behind t r ≡ some (s, l') → l' ≡ l + n
    second t none e2 h = cc
    second t (some (t2, l2)) e2 h =
        let same : l2 ≡ l' = cc h in let moved = hq l t2 l2 e2 in omega arith

    go : (r : Option (Text × ℕ)) → p (l + m) ≡ r → then_print r q ≡ some (s, l') → l' ≡ l + n
    go none e1 h = cc
    go (some (t, l1)) e1 h =
        let at : l1 ≡ l + k = hp l t l1 e1 in
        second t (q (l + k)) refl (ap (λ x. behind t (q x)) (sym at) ∙ h)

Moves-emit : (m : ℕ) (t : Text) → Moves m m (emit t)
unfolding emit
Moves-emit m t l s l' e = cc

Moves-emit_zero : (m : ℕ) (t : Text) → Moves m (m + 0) (emit t)
unfolding emit
Moves-emit_zero m t l s l' e = let same : l + m ≡ l' = cc e in omega arith

Moves-shown : (m : ℕ) (o : Option Text) → Moves m m (shown o)
unfolding shown
Moves-shown m none l s l' e = cc
Moves-shown m (some t) l s l' e = cc

Moves-indent : (m w : ℕ) → Moves m m (indent w)
unfolding indent
Moves-indent m w l s l' e = cc

Moves-push : (m : ℕ) → Moves m (m + 1) push
unfolding push
Moves-push m l s l' e = let same : l + m + 1 ≡ l' = cc e in omega arith

Moves-pop : (m : ℕ) → Moves (m + 1) m pop
unfolding pop
Moves-pop m l s l' e =
    let same : (if (l + (m + 1)) == 0 then 0xffffffffffffffff else l + (m + 1) - 1) ≡ l' = cc e in
    ground arith

Moves-at : (m n m' n' : ℕ) (p : Print) → m ≡ m' → n ≡ n' → Moves m n p → Moves m' n' p
Moves-at m n m' n' p e1 e2 h l s l' e =
    let moved = h l s l' (ap (λ k. p (l + k)) e1 ∙ e) in omega arith

Moves-behind_last : (m w : ℕ) → Moves (m + 1) m (behind_field w no_fields)
Moves-behind_last m w =
    Moves-seq _ m _ _ _ (Moves-pop m) (
      Moves-seq _ m _ _ _ (Moves-emit m _)
        (Moves-seq _ m _ _ _ (Moves-indent m w) (Moves-emit m _)))

module _ (u : Unicode) (w : ℕ) where
  -- A field and those behind it, by what they do.
  field-Moves :
      (id : AstIdentifier) (t : AstType) (rest : Fields) (m : ℕ)
      → Moves (m + 1) (m + 1 + empty_records t) (print_type u w t)
      → Moves
          (m + 1 + empty_records t)
          (m + (empty_records t + field_records rest))
          (behind_field w rest <+> print_fields u w rest)
      → Moves
          (m + 1)
          (m + (empty_records t + field_records rest))
          (print_fields u w (field id t rest))
  unfolding print_fields
  field-Moves id t rest m ht hr = Moves-seq _ (m + 1) _ _ _ (Moves-indent (m + 1) w) (
      Moves-seq _ (m + 1) _ _ _ (Moves-emit (m + 1) _)
        (Moves-seq _ (m + 1 + empty_records t) _ _ _ ht hr))

  mutual
    unfolding print_type print_fields empty_records field_records

    type-Moves : (t : AstType) (m : ℕ) → Moves m (m + empty_records t) (print_type u w t)
    type-Moves (named q) m = Moves-emit_zero m _
    type-Moves (array dims t) m = Moves-seq _ m _ _ _ (Moves-emit m _) (
        Moves-seq _ m _ _ _ (Moves-shown m _)
          (Moves-seq _ m _ _ _ (Moves-emit m _) (type-Moves t m)))
    type-Moves (record_type base no_fields) m =
        Moves-seq _ m _ _ _ (Moves-emit m _)
          (Moves-seq _ (m + 1) _ _ _ (Moves-push m) (Moves-emit (m + 1) _))
    type-Moves (record_type base (field id t rest)) m = Moves-seq _ m _ _ _ (Moves-emit m _) (
        Moves-seq _ (m + 1) _ _ _ (Moves-push m)
          (field-Moves id t rest m (type-Moves t (m + 1)) (rest-Moves (empty_records t) rest m)))
    type-Moves (pointer_to t) m = Moves-seq _ m _ _ _ (Moves-emit m _) (type-Moves t m)
    type-Moves (enumeration ids) m = Moves-emit_zero m _

    rest-Moves :
        (k : ℕ) (rest : Fields) (m : ℕ)
        → Moves
            (m + 1 + k)
            (m + (k + field_records rest))
            (behind_field w rest <+> print_fields u w rest)
    rest-Moves k no_fields m =
        Moves-at (m + k + 1) (m + k) (m + 1 + k) (m + (k + field_records no_fields))
          (behind_field w no_fields <+> emit []) (omega arith) (omega arith)
          (Moves-seq _ (m + k) _ _ _ (Moves-behind_last (m + k) w) (Moves-emit (m + k) _))
    rest-Moves k (field id t rest) m =
        Moves-at (m + k + 1) (m + k + (empty_records t + field_records rest)) (m + 1 + k)
          (m + (k + field_records (field id t rest)))
          (emit (codes ";\n") <+> print_fields u w (field id t rest)) (omega arith) (omega arith)
          (Moves-seq _ (m + k + 1) _ _ _ (Moves-emit (m + k + 1) _) (
            field-Moves id t rest (m + k) (type-Moves t (m + k + 1))
              (rest-Moves (empty_records t) rest (m + k))))

  -- The print of a type leaves the level of indentation as it was, but raised by one for each record
  -- without fields in it.
  pub print_type-level :
      (t : AstType) (l : ℕ) (s : Text) (l' : ℕ)
      → print_type u w t l ≡ some (s, l')
      → l' ≡ l + empty_records t
  print_type-level t l s l' e =
      let moved = type-Moves t 0 l s l' (ap (print_type u w t) (omega arith) ∙ e) in omega arith
