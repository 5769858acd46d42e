-- ===== src/Query/Eval/Logic.antt =====
-- The three-valued logic of src/query/executor/expression.rs.
use oxtub.Base.{
  ℕ, ◌-◌, sym, ◌∙◌, subst, ap₂, ◌≡◌, refl, ap, Exec, ok, err, panic, ◌>>=◌, leb, if◌then◌else◌,
}
use oxtub.Query.Eval.Defs.{
  CmpBool, cmp_true, cmp_false, cmp_null, eval_and, eval_or, eval_logic, eval_not, not_value,
  expect_bool, evaluate_expression,
}
use oxtub.Query.Expression.{
  PlannedExpression, ExpressionType, logic, not_of, LogicType, ExecutionError,
}
use oxtub.Base.{List}
use oxtub.Value.{Floats, Value}

-- FALSE < NULL < TRUE, as 0, 1 and 2.
abbrev pub truth : CmpBool → ℕ
truth cmp_false = 0
truth cmp_null = 1
truth cmp_true = 2

abbrev pub least : ℕ → ℕ → ℕ
least a b = if leb a b then a else b

abbrev pub greatest : ℕ → ℕ → ℕ
greatest a b = if leb a b then b else a

-- The value is a Boolean or NULL, and stands for the truth value `n`.
abbrev pub Denotes : {D : Type 0} → Exec (ExecutionError D) (Value D) → ℕ → Type 0
Denotes m n = (b : CmpBool) × ((m >>= expect_bool) ≡ ok b) × (truth b ≡ n)

module _ (D : Type 0) where
  eval_and-Denotes : (a b : CmpBool) → Denotes {D = D} (eval_and a b) (least (truth a) (truth b))
  unfolding eval_and expect_bool
  eval_and-Denotes cmp_true cmp_true = (cmp_true, refl, refl)
  eval_and-Denotes cmp_true cmp_false = (cmp_false, refl, refl)
  eval_and-Denotes cmp_true cmp_null = (cmp_null, refl, refl)
  eval_and-Denotes cmp_false cmp_true = (cmp_false, refl, refl)
  eval_and-Denotes cmp_false cmp_false = (cmp_false, refl, refl)
  eval_and-Denotes cmp_false cmp_null = (cmp_false, refl, refl)
  eval_and-Denotes cmp_null cmp_true = (cmp_null, refl, refl)
  eval_and-Denotes cmp_null cmp_false = (cmp_false, refl, refl)
  eval_and-Denotes cmp_null cmp_null = (cmp_null, refl, refl)

  eval_or-Denotes : (a b : CmpBool) → Denotes {D = D} (eval_or a b) (greatest (truth a) (truth b))
  unfolding eval_or expect_bool
  eval_or-Denotes cmp_true cmp_true = (cmp_true, refl, refl)
  eval_or-Denotes cmp_true cmp_false = (cmp_true, refl, refl)
  eval_or-Denotes cmp_true cmp_null = (cmp_true, refl, refl)
  eval_or-Denotes cmp_false cmp_true = (cmp_true, refl, refl)
  eval_or-Denotes cmp_false cmp_false = (cmp_false, refl, refl)
  eval_or-Denotes cmp_false cmp_null = (cmp_null, refl, refl)
  eval_or-Denotes cmp_null cmp_true = (cmp_true, refl, refl)
  eval_or-Denotes cmp_null cmp_false = (cmp_null, refl, refl)
  eval_or-Denotes cmp_null cmp_null = (cmp_null, refl, refl)

abbrev pub connective : LogicType → ℕ → ℕ → ℕ
connective LogicType.and = least
connective LogicType.or = greatest

eval_logic-Denotes :
    (D : Type 0) (o : LogicType) (a b : CmpBool)
    → Denotes {D = D} (eval_logic o a b) (connective o (truth a) (truth b))
unfolding eval_logic
eval_logic-Denotes D LogicType.and a b = eval_and-Denotes D a b
eval_logic-Denotes D LogicType.or a b = eval_or-Denotes D a b

not_value-Denotes : (D : Type 0) (a : CmpBool) → Denotes {D = D} (ok (not_value a)) (2 - truth a)
unfolding expect_bool
not_value-Denotes D cmp_true = (cmp_false, refl, refl)
not_value-Denotes D cmp_false = (cmp_true, refl, refl)
not_value-Denotes D cmp_null = (cmp_null, refl, refl)

module _ {D : Type 0} ⦃f : Floats D⦄ where
  bind-Denotes :
      (m : Exec (ExecutionError D) (Value D)) (k : CmpBool → Exec (ExecutionError D) (Value D))
      (a : CmpBool)
      → (m >>= expect_bool) ≡ ok a
      → (m >>= λ v. expect_bool v >>= k) ≡ k a
  bind-Denotes (ok v) k a e = rw e
  bind-Denotes (err e) k a h = cc
  bind-Denotes panic k a h = cc

  -- AND and OR of two expressions that evaluate to truth values are the least and the greatest of
  -- these, with FALSE < NULL < TRUE, and NOT turns the order round: the logic of Kleene.
  pub evaluate_logic-Denotes :
      (row : List (Value D)) (rt : ExpressionType) (l r : PlannedExpression D) (m n : ℕ)
      → Denotes (evaluate_expression l row) m
      → Denotes (evaluate_expression r row) n
      → ((o : LogicType) → Denotes (evaluate_expression (logic rt l o r) row) (connective o m n))
        × Denotes (evaluate_expression (not_of rt l) row) (2 - m)
  unfolding evaluate_expression eval_not
  evaluate_logic-Denotes row rt l r m n (a, ea, ta) (b, eb, tb) = (
    λ o.
        let both =
          bind-Denotes (evaluate_expression l row)
            (λ x. evaluate_expression r row >>= λ w. expect_bool w >>= λ y. eval_logic o x y) a ea
          ∙ bind-Denotes (evaluate_expression r row) (λ y. eval_logic o a y) b eb in
        subst (λ e. Denotes e (connective o m n)) (sym both)
          (subst (Denotes (eval_logic o a b)) (ap₂ (connective o) ta tb)
            (eval_logic-Denotes D o a b)),
    let turned = bind-Denotes (evaluate_expression l row) (λ x. ok (not_value x)) a ea in
        subst (λ e. Denotes e (2 - m)) (sym turned)
          (subst (Denotes {D = D} (ok (not_value a))) (ap (λ t. 2 - t) ta) (not_value-Denotes D a)),
  )
