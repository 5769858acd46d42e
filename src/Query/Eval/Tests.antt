-- ===== src/Query/Eval/Tests.antt =====
-- Witnesses, on a row of an integer and a varchar. Decimals are whole numbers here.
use oxtub.Base.{◌-◌, ◌≡◌, refl, Bool, true, none, List, [], ◌∷◌, ◌++◌, arith, ok, err, ◌↔◌}
use oxtub.Base.Int.{ℤ, ltb_ℤ, eqb_ℤ, ◌+ℤ◌, ◌-ℤ◌, neg, Fits, i16_limit, i32_limit}
use oxtub.Query.Eval.Arithmetic.{
  is_small_int, is_integer, limit, exact, int_value, Compares, eval_arithmetic-exact,
  eval_comparison_integers,
}
use oxtub.Query.Eval.Defs.{
  cmp_true, cmp_null, eval_arithmetic, eval_comparison, evaluate_expression,
  evaluate_join_expression, expect_bool, is_numeric_type,
}
use oxtub.Query.Eval.Join.{on_joined, evaluate_join_expression-joined}
use oxtub.Query.Eval.Logic.{Denotes, connective, evaluate_logic-Denotes}
use oxtub.Query.Eval.Typing.{
  HasType, t_column, t_constant, t_arithmetic, RowFits, Sound, widest, evaluate_expression-Sound,
}
use oxtub.Query.Expression.{
  PlannedExpression, ExpressionType, column_value, constant_value, comparison, arithmetic, logic,
  not_of, ComparisonType, ArithmeticType, LogicType, numeric_out_of_range,
}
use oxtub.Value.{SqlType, Floats, Value}

instance whole_numbers : Floats ℤ
whole_numbers = record {
  add = λ a b. a +ℤ b;
  sub = λ a b. a -ℤ b;
  negate = neg;
  feq = λ a b. eqb_ℤ a b;
  flt = λ a b. ltb_ℤ a b;
  fle = λ a b. ltb_ℤ a b;
  of_int = λ a. a;
}

abbrev of_type : SqlType → ExpressionType
of_type t = record { sql_type = t; varchar_size = none }

abbrev cols : List SqlType
cols = SqlType.integer ∷ SqlType.varchar ∷ []

abbrev row : List (Value ℤ)
row = Value.integer (ℤ.pos 5) ∷ Value.varchar (104 ∷ 105 ∷ []) ∷ []

row-RowFits : RowFits cols row
unfolding i32_limit
row-RowFits = (refl, (omega arith, omega arith), (refl, tt, tt))

-- column 0 + 3, a small integer
abbrev total : PlannedExpression ℤ
total =
    arithmetic (of_type SqlType.integer) (column_value (of_type SqlType.integer) 0 0)
      ArithmeticType.plus (constant_value (of_type SqlType.small_int) (Value.small_int (ℤ.pos 3)))

total-HasType : HasType cols total SqlType.integer
unfolding i16_limit is_numeric_type
total-HasType =
    t_arithmetic (t_column refl) (t_constant (omega arith, omega arith) refl) refl refl refl

evaluate_expression-Sound_example : Sound SqlType.integer (evaluate_expression total row)
evaluate_expression-Sound_example = evaluate_expression-Sound cols row row-RowFits total-HasType

abbrev yes : PlannedExpression ℤ
yes = constant_value (of_type SqlType.boolean) (Value.boolean true)

abbrev unknown : PlannedExpression ℤ
unknown = constant_value (of_type SqlType.boolean) (Value.null SqlType.boolean)

yes-Denotes : Denotes (evaluate_expression yes row) 2
unfolding evaluate_expression expect_bool
yes-Denotes = (cmp_true, refl, refl)

unknown-Denotes : Denotes (evaluate_expression unknown row) 1
unfolding evaluate_expression expect_bool
unknown-Denotes = (cmp_null, refl, refl)

evaluate_logic-Denotes_example :
    ((o : LogicType)
      → Denotes
          (evaluate_expression (logic (of_type SqlType.boolean) yes o unknown) row)
          (connective o 2 1))
    × Denotes (evaluate_expression (not_of (of_type SqlType.boolean) yes) row) (2 - 2)
evaluate_logic-Denotes_example =
    evaluate_logic-Denotes row (of_type SqlType.boolean) yes unknown 2 1 yes-Denotes unknown-Denotes

eval_arithmetic-exact_example :
    let t = widest SqlType.small_int SqlType.integer in
    (Fits (limit t) (exact ArithmeticType.plus (ℤ.pos 7) (ℤ.negsuc 1))
      → eval_arithmetic {D = ℤ} ArithmeticType.plus
          (Value.small_int (ℤ.pos 7))
          (Value.integer (ℤ.negsuc 1))
        ≡ ok (int_value t (exact ArithmeticType.plus (ℤ.pos 7) (ℤ.negsuc 1))))
    × (¬ Fits (limit t) (exact ArithmeticType.plus (ℤ.pos 7) (ℤ.negsuc 1))
        → eval_arithmetic {D = ℤ} ArithmeticType.plus
            (Value.small_int (ℤ.pos 7))
            (Value.integer (ℤ.negsuc 1))
          ≡ err numeric_out_of_range)
eval_arithmetic-exact_example =
    eval_arithmetic-exact ArithmeticType.plus (is_small_int (ℤ.pos 7)) (is_integer (ℤ.negsuc 1))

eval_comparison_integers_example :
    (b : Bool) × (eval_comparison {D = ℤ}
        (Value.small_int (ℤ.pos 7))
        (Value.integer (ℤ.negsuc 1))
        ComparisonType.less_than
      ≡ ok (Value.boolean b))
    × ((b ≡ true) ↔ Compares ComparisonType.less_than (ℤ.pos 7) (ℤ.negsuc 1))
eval_comparison_integers_example =
    eval_comparison_integers ComparisonType.less_than (is_small_int (ℤ.pos 7))
      (is_integer (ℤ.negsuc 1))

-- left column 0 = right column 0
abbrev same_key : PlannedExpression ℤ
same_key =
    comparison (of_type SqlType.boolean) (column_value (of_type SqlType.integer) 0 0)
      ComparisonType.eq (column_value (of_type SqlType.integer) 1 0)

evaluate_join_expression-joined_example :
    evaluate_join_expression same_key row row
    ≡ evaluate_expression (on_joined 2 same_key) (row ++ row)
evaluate_join_expression-joined_example =
    evaluate_join_expression-joined row row same_key (omega arith, tt)
