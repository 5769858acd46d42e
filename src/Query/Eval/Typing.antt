-- ===== src/Query/Eval/Typing.antt =====
-- Typed expressions of src/query/planner/expression.rs evaluate, in src/query/executor/expression.rs,
-- to a value of their type or run out of range.
use oxtub.Base.{
  ℕ, zero, suc, ◌≡◌, refl, ap, sym, ◌∙◌, subst, true, false, some, List, [], ◌∷◌, if◌then◌else◌,
  arith, ◌⊎◌, get_elem?, Exec, ok, err, panic, ◌>>=◌, or_panic, ltb, ap₂,
}
use mathlib.Core.Option.{some-injective}
use mathlib.Core.Path.{subst₂}
use oxtub.Base.Int.{Fits, i16_limit, i32_limit, i64_limit}
use oxtub.Query.Eval.Defs.{
  CmpBool, cmp_true, cmp_false, cmp_null, is_numeric_type, expect_numeric_type, wider_type,
  numeric_result_type, can_compare_as_numeric, expect_bool, eval_and, eval_or, eval_logic, eval_not,
  eval_null_check, eval_negate, cast_numeric, eval_add, eval_sub, eval_numeric_arithmetic,
  eval_arithmetic, compare_numeric, eval_numeric_comparison, compare_other, eval_comparison,
  evaluate_expression,
}
use oxtub.Query.Expression.{
  PlannedExpression, ExpressionType, column_value, constant_value, comparison, arithmetic, logic,
  not_of, negate, null_check, ComparisonType, ArithmeticType, LogicType, NullCheckType,
  ExecutionError, expected_boolean, expected_numeric, numeric_out_of_range,
  comparison_type_mismatch, expected_integer, negative_limit,
}
use oxtub.Value.{SqlType, Floats, Value, sql_type}

-- The integers of a value fit its type.
abbrev pub ValueFits : {D : Type 0} → Value D → Type 0
ValueFits (Value.boolean b) = Unit
ValueFits (Value.small_int i) = Fits i16_limit i
ValueFits (Value.integer i) = Fits i32_limit i
ValueFits (Value.big_int i) = Fits i64_limit i
ValueFits (Value.decimal x) = Unit
ValueFits (Value.varchar s) = Unit
ValueFits (Value.null t) = Unit

-- A value of the type, or the one error that typed code may meet.
abbrev pub Sound : {D : Type 0} → SqlType → Exec (ExecutionError D) (Value D) → Type 0
Sound t (ok v) = (sql_type v ≡ t) × ValueFits v
Sound t (err numeric_out_of_range) = Unit
Sound t (err (expected_boolean v)) = ⊥
Sound t (err (expected_numeric v)) = ⊥
Sound t (err (expected_integer v)) = ⊥
Sound t (err negative_limit) = ⊥
Sound t (err (comparison_type_mismatch v w)) = ⊥
Sound t panic = ⊥

abbrev pub Comparable : SqlType → SqlType → Type 0
Comparable s t = ((is_numeric_type s ≡ true) × (is_numeric_type t ≡ true)) ⊎ (s ≡ t)

-- Numeric types from the narrowest to the widest.
abbrev pub rank : SqlType → ℕ
rank SqlType.small_int = 0
rank SqlType.integer = 1
rank SqlType.big_int = 2
rank SqlType.decimal = 3
rank SqlType.boolean = 0
rank SqlType.varchar = 0

abbrev pub widest : SqlType → SqlType → SqlType
widest s t = if ltb (rank s) (rank t) then t else s

-- `e` has type `t` over rows whose columns have the types `cols`.
pub data HasType {D : Type 0} (cols : List SqlType) : PlannedExpression D → SqlType → Type 0 where
  t_column :
      {rt : ExpressionType} {i : ℕ} {t : SqlType}
      → get_elem? cols i ≡ some t
      → HasType cols (column_value rt 0 i) t
  t_constant :
      {rt : ExpressionType} {v : Value D} {t : SqlType}
      → ValueFits v
      → sql_type v ≡ t
      → HasType cols (constant_value rt v) t
  t_comparison :
      {rt : ExpressionType} {l r : PlannedExpression D} {o : ComparisonType} {s t : SqlType}
      → HasType cols l s
      → HasType cols r t
      → Comparable s t
      → HasType cols (comparison rt l o r) SqlType.boolean
  t_arithmetic :
      {rt : ExpressionType} {l r : PlannedExpression D} {o : ArithmeticType} {s t u : SqlType}
      → HasType cols l s
      → HasType cols r t
      → is_numeric_type s ≡ true
      → is_numeric_type t ≡ true
      → u ≡ widest s t
      → HasType cols (arithmetic rt l o r) u
  t_logic :
      {rt : ExpressionType} {l r : PlannedExpression D} {o : LogicType}
      → HasType cols l SqlType.boolean
      → HasType cols r SqlType.boolean
      → HasType cols (logic rt l o r) SqlType.boolean
  t_not :
      {rt : ExpressionType} {e : PlannedExpression D}
      → HasType cols e SqlType.boolean
      → HasType cols (not_of rt e) SqlType.boolean
  t_negate :
      {rt : ExpressionType} {e : PlannedExpression D} {t : SqlType}
      → HasType cols e t
      → is_numeric_type t ≡ true
      → HasType cols (negate rt e) t
  t_null_check :
      {rt : ExpressionType} {e : PlannedExpression D} {o : NullCheckType} {t : SqlType}
      → HasType cols e t
      → HasType cols (null_check rt e o) SqlType.boolean

-- The values of a row have the types of its columns.
abbrev pub RowFits : {D : Type 0} → List SqlType → List (Value D) → Type 0
RowFits [] [] = Unit
RowFits [] (v ∷ vs) = ⊥
RowFits (t ∷ ts) [] = ⊥
RowFits (t ∷ ts) (v ∷ vs) = (sql_type v ≡ t) × ValueFits v × RowFits ts vs

eval_logic-Sound :
    (D : Type 0) (o : LogicType) (a b : CmpBool) → Sound {D = D} SqlType.boolean (eval_logic o a b)
unfolding eval_logic eval_and eval_or
eval_logic-Sound D o a b = ground arith

module _ {D : Type 0} ⦃f : Floats D⦄ where
  eval_comparison-Sound :
      (l r : Value D) (t : ComparisonType)
      → Comparable (sql_type l) (sql_type r)
      → Sound SqlType.boolean (eval_comparison l r t)
  unfolding eval_comparison can_compare_as_numeric is_numeric_type eval_numeric_comparison
      numeric_result_type expect_numeric_type wider_type cast_numeric compare_numeric compare_other
  eval_comparison-Sound (Value.boolean b) r t c = ground arith
  eval_comparison-Sound (Value.small_int i) r t c = ground arith
  eval_comparison-Sound (Value.integer i) r t c = ground arith
  eval_comparison-Sound (Value.big_int i) r t c = ground arith
  eval_comparison-Sound (Value.decimal x) r t c = ground arith
  eval_comparison-Sound (Value.varchar s) r t c = ground arith
  eval_comparison-Sound (Value.null u) r t c = ground arith

  eval_arithmetic-Sound :
      (l r : Value D) (o : ArithmeticType)
      → ValueFits l
      → ValueFits r
      → is_numeric_type (sql_type l) ≡ true
      → is_numeric_type (sql_type r) ≡ true
      → Sound (widest (sql_type l) (sql_type r)) (eval_arithmetic o l r)
  unfolding eval_arithmetic is_numeric_type eval_numeric_arithmetic numeric_result_type
      expect_numeric_type wider_type cast_numeric eval_add eval_sub
  eval_arithmetic-Sound (Value.boolean b) r o p q m n = cc
  eval_arithmetic-Sound (Value.small_int i) r o p q m n = ground arith
  eval_arithmetic-Sound (Value.integer i) r o p q m n = ground arith
  eval_arithmetic-Sound (Value.big_int i) r o p q m n = ground arith
  eval_arithmetic-Sound (Value.decimal x) r o p q m n = ground arith
  eval_arithmetic-Sound (Value.varchar s) r o p q m n = cc
  eval_arithmetic-Sound (Value.null u) r o p q m n = ground arith

  eval_negate-Sound :
      (v : Value D) → is_numeric_type (sql_type v) ≡ true → Sound (sql_type v) (eval_negate v)
  unfolding eval_negate is_numeric_type
  eval_negate-Sound v m = ground arith

  eval_not-Sound : (v : Value D) → sql_type v ≡ SqlType.boolean → Sound SqlType.boolean (eval_not v)
  unfolding eval_not expect_bool
  eval_not-Sound v m = ground arith

  column-Sound :
      (cols : List SqlType) (row : List (Value D)) (i : ℕ) (t : SqlType)
      → RowFits cols row
      → get_elem? cols i ≡ some t
      → Sound t (or_panic (get_elem? row i))
  column-Sound [] [] i t h e = cc
  column-Sound [] (v ∷ vs) i t h e = absurd h
  column-Sound (s ∷ cols) [] i t h e = absurd h
  column-Sound (s ∷ cols) (v ∷ vs) zero t h e = (h.0 ∙ some-injective _ _ e, h.1)
  column-Sound (s ∷ cols) (v ∷ vs) (suc i) t h e = column-Sound cols vs i t h.2 e

  -- A sound result goes on to a sound result.
  Sound-bind :
      (s t : SqlType) (m : Exec (ExecutionError D) (Value D))
      (k : Value D → Exec (ExecutionError D) (Value D))
      → Sound s m
      → ((v : Value D) → sql_type v ≡ s → ValueFits v → Sound t (k v))
      → Sound t (m >>= k)
  Sound-bind s t (ok v) k h next = next v h.0 h.1
  Sound-bind s t (err (expected_boolean v)) k h next = absurd h
  Sound-bind s t (err (expected_numeric v)) k h next = absurd h
  Sound-bind s t (err (expected_integer v)) k h next = absurd h
  Sound-bind s t (err negative_limit) k h next = absurd h
  Sound-bind s t (err numeric_out_of_range) k h next = tt
  Sound-bind s t (err (comparison_type_mismatch v w)) k h next = absurd h
  Sound-bind s t panic k h next = absurd h

  -- The Boolean of a Boolean value.
  expect_bool-ok :
      (v : Value D) → sql_type v ≡ SqlType.boolean → (b : CmpBool) × (expect_bool v ≡ ok b)
  unfolding expect_bool
  expect_bool-ok (Value.boolean true) e = (cmp_true, refl)
  expect_bool-ok (Value.boolean false) e = (cmp_false, refl)
  expect_bool-ok (Value.small_int i) e = absurd (cc e)
  expect_bool-ok (Value.integer i) e = absurd (cc e)
  expect_bool-ok (Value.big_int i) e = absurd (cc e)
  expect_bool-ok (Value.decimal x) e = absurd (cc e)
  expect_bool-ok (Value.varchar s) e = absurd (cc e)
  expect_bool-ok (Value.null t) e = (cmp_null, refl)

  eval_null_check-Sound :
      (o : NullCheckType) (v : Value D) → Sound SqlType.boolean (ok (eval_null_check o v))
  unfolding eval_null_check
  eval_null_check-Sound NullCheckType.is_null v = (refl, tt)
  eval_null_check-Sound NullCheckType.is_not_null v = (refl, tt)

  -- A typed expression, on a row of the types that it was typed for, evaluates to a value of its
  -- type that fits its width, or ends in `NumericOutOfRange`: it neither panics nor meets a value
  -- of another type.
  pub evaluate_expression-Sound :
      (cols : List SqlType) (row : List (Value D)) {e : PlannedExpression D} {t : SqlType}
      → RowFits cols row
      → HasType cols e t
      → Sound t (evaluate_expression e row)
  unfolding evaluate_expression
  evaluate_expression-Sound cols row fit (t_column {i = i} {t = t} at) =
      column-Sound cols row i t fit at
  evaluate_expression-Sound cols row fit (t_constant v e) = (e, v)
  evaluate_expression-Sound cols row fit (t_comparison {o = o} {s = s} {t = t} hl hr c) =
      Sound-bind s SqlType.boolean _ _ (evaluate_expression-Sound cols row fit hl) λ v p _.
        Sound-bind t SqlType.boolean _ _ (evaluate_expression-Sound cols row fit hr)
          λ w q _. eval_comparison-Sound v w o (subst₂ Comparable (sym p) (sym q) c)
  evaluate_expression-Sound cols row fit
        (t_arithmetic {o = o} {s = s} {t = t} {u = u} hl hr m n e) =
      Sound-bind s u _ _ (evaluate_expression-Sound cols row fit hl) λ v p v'.
        Sound-bind t u _ _ (evaluate_expression-Sound cols row fit hr) λ w q w'.
          subst (λ x. Sound x (eval_arithmetic o v w)) (ap₂ widest p q ∙ sym e)
            (eval_arithmetic-Sound v w o v' w' (ap is_numeric_type p ∙ m)
              (ap is_numeric_type q ∙ n))
  evaluate_expression-Sound cols row fit (t_logic {o = o} hl hr) =
      Sound-bind SqlType.boolean SqlType.boolean _ _ (evaluate_expression-Sound cols row fit hl)
        λ v p _.
          let (a, ea) = expect_bool-ok v p in
          rw ea (
            Sound-bind SqlType.boolean SqlType.boolean _ _
              (evaluate_expression-Sound cols row fit hr)
              λ w q _. let (b, eb) = expect_bool-ok w q in rw eb (eval_logic-Sound D o a b))
  evaluate_expression-Sound cols row fit (t_not h) =
      Sound-bind SqlType.boolean SqlType.boolean _ _ (evaluate_expression-Sound cols row fit h)
        λ v p _. eval_not-Sound v p
  evaluate_expression-Sound cols row fit (t_negate {t = t} h m) =
      Sound-bind t t _ _ (evaluate_expression-Sound cols row fit h) λ v p _.
        subst (λ x. Sound x (eval_negate v)) p (eval_negate-Sound v (ap is_numeric_type p ∙ m))
  evaluate_expression-Sound cols row fit (t_null_check {o = o} {t = t} h) =
      Sound-bind t SqlType.boolean _ _ (evaluate_expression-Sound cols row fit h)
        λ v p _. eval_null_check-Sound o v
