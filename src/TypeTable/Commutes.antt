-- ===== src/TypeTable/Commutes.antt =====
-- What the rules of the operators say together: src/compiler/typetable.cc.
use axcomp.Prelude.{
  ℕ, ◌≡◌, ◌⊎◌, inl, inr, refl, ap, ◌∙◌, sym, arith, Bool, true, false, ◌||◌, ◌&&◌, List, [], ◌∷◌,
  Option, none, some, get_elem?, zero, suc, if◌then◌else◌, ◌==◌, ==_iff, Bool-cases, Option-cases,
}
use axcomp.Token.{
  TokenType, ordinal, type_eq, equals, hash, less, leq, greater, gteq, kw_in, assign,
}
use axcomp.Token.Enumeration.{type_eq→eq}
use axcomp.TypeTable.{find_rule}
use axcomp.TypeTable.Rules.{TypeRule2, rules2, reg, bool_type, real_type, void_type}

abbrev rule_is : ℕ → Option ℕ → Bool
rule_is t none = false
rule_is t (some s) = s == t

rule_is-eq : (t : ℕ) (o : Option ℕ) → rule_is t o ≡ true → o ≡ some t
rule_is-eq t none h = cc
rule_is-eq t (some s) h = ap some ((==_iff s t).0 h)

-- A test of every rule.
all_rules : (TypeRule2 → Bool) → List TypeRule2 → Bool
all_rules test [] = true
all_rules test (r ∷ rs) = test r && all_rules test rs

-- The test of all rules holds of a rule that a lookup finds.
find_rule-all :
    (test : TypeRule2 → Bool) (op : TokenType) (left right : ℕ) (rs : List TypeRule2) {t : ℕ}
    → all_rules test rs ≡ true
    → find_rule op left right rs ≡ some t
    → test (reg op left right t) ≡ true
unfolding all_rules find_rule
find_rule-all test op left right [] h e = cc
find_rule-all test op left right (r ∷ rs) {t} h e =
    elim (Bool-cases (type_eq r.op op && r.left == left && r.right == right)) [
      | inr other ↦ find_rule-all test op left right rs (ground arith) (ground arith)
      | inl same ↦
          let here : test r ≡ true = ground arith in
          let op_same : r.op ≡ op = type_eq→eq r.op op (ground arith) in
          let left_same : r.left ≡ left = ground arith in
          let right_same : r.right ≡ right = ground arith in
          let result_same : r.result ≡ t = ground arith in
          let rule : r ≡ reg op left right t = λ i. record {
            op = op_same i;
            left = left_same i;
            right = right_same i;
            result = result_same i;
          } in
          sym (ap test rule) ∙ here
    ]

-- The rule is for `:=` or `IN`, or there is one for its arguments in the other order.
commutes : TypeRule2 → Bool
unfolding find_rule ordinal
commutes r =
    type_eq r.op assign
    || type_eq r.op kw_in
    || rule_is r.result (find_rule r.op r.right r.left rules2)

all-commutes : all_rules commutes rules2 ≡ true
unfolding all_rules commutes
all-commutes = refl

-- No rule before it is for the same arguments.
is_first : TypeRule2 → Bool
unfolding find_rule ordinal
is_first r = rule_is r.result (find_rule r.op r.left r.right rules2)

all-is_first : all_rules is_first rules2 ≡ true
unfolding all_rules is_first
all-is_first = refl

all_rules-get_elem? :
    (test : TypeRule2 → Bool) (rs : List TypeRule2) (n : ℕ) {r : TypeRule2}
    → all_rules test rs ≡ true
    → get_elem? rs n ≡ some r
    → test r ≡ true
unfolding all_rules
all_rules-get_elem? test [] n h e = cc
all_rules-get_elem? test (q ∷ rs) zero {r} h e =
    let same : q ≡ r = cc in let here : test q ≡ true = ground arith in sym (ap test same) ∙ here
all_rules-get_elem? test (q ∷ rs) (suc n) h e = all_rules-get_elem? test rs n (ground arith) e

-- No two rules contradict each other: every rule that is registered is the one that is found for its
-- operator and its types.
pub find_rule-registered :
    (n : ℕ) (r : TypeRule2)
    → get_elem? rules2 n ≡ some r
    → find_rule r.op r.left r.right rules2 ≡ some r.result
unfolding is_first
find_rule-registered n r e =
    rule_is-eq r.result (find_rule r.op r.left r.right rules2)
      (all_rules-get_elem? is_first rules2 n all-is_first e)

found-commutes :
    (op : TokenType) (left right : ℕ) {t : ℕ}
    → type_eq op assign ≡ false
    → type_eq op kw_in ≡ false
    → find_rule op left right rules2 ≡ some t
    → find_rule op right left rules2 ≡ some t
unfolding commutes
found-commutes op left right {t} no_assign no_in e =
    let h = find_rule-all commutes op left right rules2 all-commutes e in
    rule_is-eq t (find_rule op right left rules2) (rw (no_assign, no_in) at h)

-- The rules of an operator other than `:=` and `IN` do not depend on the order of its arguments.
pub find_rule-commutes :
    (op : TokenType) (left right : ℕ)
    → type_eq op assign ≡ false
    → type_eq op kw_in ≡ false
    → find_rule op left right rules2 ≡ find_rule op right left rules2
find_rule-commutes op left right no_assign no_in =
    elim (Option-cases (find_rule op left right rules2)) [
      | inr (t, e) ↦ e ∙ sym (found-commutes op left right no_assign no_in e)
      | inl missing ↦ elim (Option-cases (find_rule op right left rules2)) [
        | inl absent ↦ missing ∙ sym absent
        | inr (t, e) ↦ found-commutes op right left no_assign no_in e ∙ sym e
      ]
    ]

-- The operators that compare, and what an operator yields.
unfoldable pub is_relation : TokenType → Bool
unfolding ordinal
is_relation op =
    type_eq op equals
    || type_eq op hash
    || type_eq op less
    || type_eq op leq
    || type_eq op greater
    || type_eq op gteq
    || type_eq op kw_in

has_result : TypeRule2 → Bool
unfolding is_relation ordinal
has_result r =
    if is_relation r.op
    then r.result == bool_type
    else if type_eq r.op assign
    then r.result == void_type
    else r.result == r.left || r.result == r.right || r.result == real_type

all-has_result : all_rules has_result rules2 ≡ true
unfolding all_rules has_result
all-has_result = refl

-- A rule of an operator that compares yields BOOLEAN, a rule of `:=` nothing, and a rule of any other
-- operator the type of an argument or REAL.
pub find_rule-result :
    (op : TokenType) (left right t : ℕ)
    → find_rule op left right rules2 ≡ some t
    → ((is_relation op ≡ true) × (t ≡ bool_type))
      ⊎ ((type_eq op assign ≡ true) × (t ≡ void_type))
      ⊎ ((is_relation op ≡ false) × ((t ≡ left) ⊎ (t ≡ right) ⊎ (t ≡ real_type)))
unfolding has_result
find_rule-result op left right t e =
    let h = find_rule-all has_result op left right rules2 all-has_result e in
    elim (Bool-cases (is_relation op)) [
      | inl relation ↦ inl (relation, (==_iff t bool_type).0 (rw relation at h))
      | inr other ↦ elim (Bool-cases (type_eq op assign)) [
        | inl assigns ↦ inr (inl (assigns, (==_iff t void_type).0 (rw (other, assigns) at h)))
        | inr plain ↦ inr (
            inr (
              other,
              choice (t == left) (t == right) (t == real_type) refl refl refl
                  (rw (other, plain) at h),
            ))
      ]
    ]
  where
    choice :
        (a b c : Bool)
        → (t == left) ≡ a
        → (t == right) ≡ b
        → (t == real_type) ≡ c
        → (a || b || c) ≡ true
        → (t ≡ left) ⊎ (t ≡ right) ⊎ (t ≡ real_type)
    choice true b c p q r h = inl ((==_iff t left).0 p)
    choice false true c p q r h = inr (inl ((==_iff t right).0 q))
    choice false false true p q r h = inr (inr ((==_iff t real_type).0 r))
    choice false false false p q r h = cc
