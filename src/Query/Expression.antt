-- ===== src/Query/Expression.antt =====
-- src/query/planner/expression.rs, and the errors of src/query/executor/error.rs that evaluation
-- can return.
use oxtub.Base.{ℕ, Option}
use oxtub.Value.{SqlType, Value}

pub record ExpressionType : Type 0 where
  pub sql_type : SqlType
  pub varchar_size : Option ℕ

pub data ComparisonType : Type 0 where
  eq not_eq less_than less_than_or_equal greater_than greater_than_or_equal : ComparisonType

pub data ArithmeticType : Type 0 where
  plus minus : ArithmeticType

pub data LogicType : Type 0 where
  and or : LogicType

pub data NullCheckType : Type 0 where
  is_null is_not_null : NullCheckType

-- `PlannedExpression`: the return type, and the fields of its kind.
pub data PlannedExpression (D : Type 0) : Type 0 where
  -- which child the column is from, and its place there
  column_value : ExpressionType → ℕ → ℕ → PlannedExpression D
  constant_value : ExpressionType → Value D → PlannedExpression D
  comparison :
      ExpressionType
      → PlannedExpression D
      → ComparisonType
      → PlannedExpression D
      → PlannedExpression D
  arithmetic :
      ExpressionType
      → PlannedExpression D
      → ArithmeticType
      → PlannedExpression D
      → PlannedExpression D
  logic :
      ExpressionType → PlannedExpression D → LogicType → PlannedExpression D → PlannedExpression D
  not_of : ExpressionType → PlannedExpression D → PlannedExpression D
  negate : ExpressionType → PlannedExpression D → PlannedExpression D
  null_check : ExpressionType → PlannedExpression D → NullCheckType → PlannedExpression D

pub data ExecutionError (D : Type 0) : Type 0 where
  expected_boolean expected_numeric expected_integer : Value D → ExecutionError D
  negative_limit numeric_out_of_range : ExecutionError D
  comparison_type_mismatch : Value D → Value D → ExecutionError D
