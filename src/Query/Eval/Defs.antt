-- ===== src/Query/Eval/Defs.antt =====
-- src/query/executor/expression.rs. A branch that the source calls unreachable panics here too.
use oxtub.Base.{
  ℕ, zero, suc, Bool, true, false, not, ◌&&◌, ◌||◌, List, [], ◌∷◌, ◌==◌, ltb, if◌then◌else◌,
  get_elem?, Exec, ok, err, panic, ◌>>=◌, ◌>>◌, or_panic, ok_or, assert,
}
use oxtub.Base.Int.{ℤ, ◌+ℤ◌, ◌-ℤ◌, neg, ltb_ℤ, eqb_ℤ, checked, i16_limit, i32_limit, i64_limit}
use oxtub.Query.Expression.{
  PlannedExpression, column_value, constant_value, comparison, arithmetic, logic, not_of, negate,
  null_check, ComparisonType, ArithmeticType, LogicType, NullCheckType, ExecutionError,
  expected_boolean, expected_numeric, numeric_out_of_range, comparison_type_mismatch,
}
use oxtub.Value.{SqlType, Floats, Value, sql_type, is_null, type_eq}

pub data CmpBool : Type 0 where
  cmp_true cmp_false cmp_null : CmpBool

abbrev pub is_cmp_true : CmpBool → Bool
is_cmp_true cmp_true = true
is_cmp_true cmp_false = false
is_cmp_true cmp_null = false

pub data CmpNumeric (D : Type 0) : Type 0 where
  small_int : ℤ → CmpNumeric D
  integer : ℤ → CmpNumeric D
  big_int : ℤ → CmpNumeric D
  decimal : D → CmpNumeric D

-- The operators that `PartialEq` and `PartialOrd` give a type.
pub record PartialOrder (A : Type 0) : Type 0 where
  pub po_eq : A → A → Bool
  pub po_lt : A → A → Bool
  pub po_le : A → A → Bool

abbrev pub int_order : PartialOrder ℤ
int_order = record { po_eq = eqb_ℤ; po_lt = ltb_ℤ; po_le = λ a b. not (ltb_ℤ b a) }

-- `false < true`
abbrev pub bool_order : PartialOrder Bool
bool_order = record {
  po_eq = λ a b. if a then b else not b;
  po_lt = λ a b. not a && b;
  po_le = λ a b. not a || b;
}

abbrev pub bytes_eq : List ℕ → List ℕ → Bool
bytes_eq [] [] = true
bytes_eq [] (b ∷ bs) = false
bytes_eq (a ∷ as') [] = false
bytes_eq (a ∷ as') (b ∷ bs) = (a == b) && bytes_eq as' bs

-- Strings compare by their bytes.
abbrev pub bytes_lt : List ℕ → List ℕ → Bool
bytes_lt [] [] = false
bytes_lt [] (b ∷ bs) = true
bytes_lt (a ∷ as') [] = false
bytes_lt (a ∷ as') (b ∷ bs) = ltb a b || ((a == b) && bytes_lt as' bs)

abbrev pub bytes_order : PartialOrder (List ℕ)
bytes_order = record { po_eq = bytes_eq; po_lt = bytes_lt; po_le = λ a b. not (bytes_lt b a) }

unfoldable pub eval_ord_comparison : {A : Type 0} → PartialOrder A → A → A → ComparisonType → Bool
eval_ord_comparison o left right ComparisonType.eq = o.po_eq left right
eval_ord_comparison o left right ComparisonType.not_eq = not (o.po_eq left right)
eval_ord_comparison o left right ComparisonType.less_than = o.po_lt left right
eval_ord_comparison o left right ComparisonType.less_than_or_equal = o.po_le left right
eval_ord_comparison o left right ComparisonType.greater_than = o.po_lt right left
eval_ord_comparison o left right ComparisonType.greater_than_or_equal = o.po_le right left

unfoldable pub is_numeric_type : SqlType → Bool
is_numeric_type SqlType.boolean = false
is_numeric_type SqlType.small_int = true
is_numeric_type SqlType.integer = true
is_numeric_type SqlType.big_int = true
is_numeric_type SqlType.decimal = true
is_numeric_type SqlType.varchar = false

-- `Result::unwrap`
abbrev pub unwrap {ℓ} : {E E' : Type 0} {A : Type ℓ} → Exec E A → Exec E' A
unwrap (ok a) = ok a
unwrap (err e) = panic
unwrap panic = panic

module _ {D : Type 0} where
  unfoldable pub expect_numeric_type : Value D → Exec (ExecutionError D) SqlType
  expect_numeric_type v =
      if is_numeric_type (sql_type v) then ok (sql_type v) else err (expected_numeric v)

  -- The match of `numeric_result_type`.
  unfoldable pub wider_type : SqlType → SqlType → Exec (ExecutionError D) SqlType
  wider_type l r =
      if type_eq l SqlType.decimal || type_eq r SqlType.decimal
      then ok SqlType.decimal
      else if type_eq l SqlType.big_int || type_eq r SqlType.big_int
      then ok SqlType.big_int
      else if type_eq l SqlType.integer || type_eq r SqlType.integer
      then ok SqlType.integer
      else if type_eq l SqlType.small_int && type_eq r SqlType.small_int
      then ok SqlType.small_int
      else panic

  unfoldable pub numeric_result_type : Value D → Value D → Exec (ExecutionError D) SqlType
  numeric_result_type left right = do
    left_type ← expect_numeric_type left
    right_type ← expect_numeric_type right
    wider_type left_type right_type

  unfoldable pub can_compare_as_numeric : Value D → Value D → Bool
  can_compare_as_numeric left right =
      is_numeric_type (sql_type left) && is_numeric_type (sql_type right)

  unfoldable pub expect_bool : Value D → Exec (ExecutionError D) CmpBool
  expect_bool (Value.boolean true) = ok cmp_true
  expect_bool (Value.boolean false) = ok cmp_false
  expect_bool (Value.null t) = ok cmp_null
  expect_bool (Value.small_int i) = err (expected_boolean (Value.small_int i))
  expect_bool (Value.integer i) = err (expected_boolean (Value.integer i))
  expect_bool (Value.big_int i) = err (expected_boolean (Value.big_int i))
  expect_bool (Value.decimal f) = err (expected_boolean (Value.decimal f))
  expect_bool (Value.varchar s) = err (expected_boolean (Value.varchar s))

  unfoldable pub eval_and : CmpBool → CmpBool → Exec (ExecutionError D) (Value D)
  eval_and cmp_false _ = ok (Value.boolean false)
  eval_and cmp_true cmp_false = ok (Value.boolean false)
  eval_and cmp_null cmp_false = ok (Value.boolean false)
  eval_and cmp_true cmp_true = ok (Value.boolean true)
  eval_and cmp_true cmp_null = ok (Value.null SqlType.boolean)
  eval_and cmp_null cmp_true = ok (Value.null SqlType.boolean)
  eval_and cmp_null cmp_null = ok (Value.null SqlType.boolean)

  unfoldable pub eval_or : CmpBool → CmpBool → Exec (ExecutionError D) (Value D)
  eval_or cmp_true _ = ok (Value.boolean true)
  eval_or cmp_false cmp_true = ok (Value.boolean true)
  eval_or cmp_null cmp_true = ok (Value.boolean true)
  eval_or cmp_false cmp_false = ok (Value.boolean false)
  eval_or cmp_false cmp_null = ok (Value.null SqlType.boolean)
  eval_or cmp_null cmp_false = ok (Value.null SqlType.boolean)
  eval_or cmp_null cmp_null = ok (Value.null SqlType.boolean)

  unfoldable pub eval_logic : LogicType → CmpBool → CmpBool → Exec (ExecutionError D) (Value D)
  eval_logic LogicType.and left right = eval_and left right
  eval_logic LogicType.or left right = eval_or left right

  abbrev pub not_value : CmpBool → Value D
  not_value cmp_true = Value.boolean false
  not_value cmp_false = Value.boolean true
  not_value cmp_null = Value.null SqlType.boolean

  unfoldable pub eval_not : Value D → Exec (ExecutionError D) (Value D)
  eval_not v = do b ← expect_bool v; ok (not_value b)

  unfoldable pub eval_null_check : NullCheckType → Value D → Value D
  eval_null_check NullCheckType.is_null v = Value.boolean (is_null v)
  eval_null_check NullCheckType.is_not_null v = Value.boolean (not (is_null v))

  -- `checked_*(..).map(wrap).ok_or(NumericOutOfRange)`
  abbrev pub in_range : ℕ → (ℤ → Value D) → ℤ → Exec (ExecutionError D) (Value D)
  in_range limit wrap x = ok_or (checked limit x) numeric_out_of_range >>= λ y. ok (wrap y)

module _ {D : Type 0} ⦃f : Floats D⦄ where
  unfoldable pub eval_negate : Value D → Exec (ExecutionError D) (Value D)
  eval_negate (Value.small_int i) = in_range i16_limit Value.small_int (neg i)
  eval_negate (Value.integer i) = in_range i32_limit Value.integer (neg i)
  eval_negate (Value.big_int i) = in_range i64_limit Value.big_int (neg i)
  eval_negate (Value.decimal x) = ok (Value.decimal (f.negate x))
  eval_negate (Value.null SqlType.big_int) = ok (Value.null SqlType.big_int)
  eval_negate (Value.null SqlType.decimal) = ok (Value.null SqlType.decimal)
  eval_negate (Value.null SqlType.integer) = ok (Value.null SqlType.integer)
  eval_negate (Value.null SqlType.small_int) = ok (Value.null SqlType.small_int)
  eval_negate (Value.null SqlType.boolean) = err (expected_numeric (Value.null SqlType.boolean))
  eval_negate (Value.null SqlType.varchar) = err (expected_numeric (Value.null SqlType.varchar))
  eval_negate (Value.boolean b) = err (expected_numeric (Value.boolean b))
  eval_negate (Value.varchar s) = err (expected_numeric (Value.varchar s))

  unfoldable pub cast_numeric : Value D → SqlType → Exec (ExecutionError D) (CmpNumeric D)
  cast_numeric (Value.small_int i) SqlType.small_int = ok (CmpNumeric.small_int i)
  cast_numeric (Value.small_int i) SqlType.integer = ok (CmpNumeric.integer i)
  cast_numeric (Value.small_int i) SqlType.big_int = ok (CmpNumeric.big_int i)
  cast_numeric (Value.small_int i) SqlType.decimal = ok (CmpNumeric.decimal (f.of_int i))
  cast_numeric (Value.integer i) SqlType.integer = ok (CmpNumeric.integer i)
  cast_numeric (Value.integer i) SqlType.big_int = ok (CmpNumeric.big_int i)
  cast_numeric (Value.integer i) SqlType.decimal = ok (CmpNumeric.decimal (f.of_int i))
  cast_numeric (Value.big_int i) SqlType.big_int = ok (CmpNumeric.big_int i)
  cast_numeric (Value.big_int i) SqlType.decimal = ok (CmpNumeric.decimal (f.of_int i))
  cast_numeric (Value.decimal x) SqlType.decimal = ok (CmpNumeric.decimal x)
  cast_numeric v _ = err (expected_numeric v)

  unfoldable pub eval_add : CmpNumeric D → CmpNumeric D → Exec (ExecutionError D) (Value D)
  eval_add (CmpNumeric.small_int l) (CmpNumeric.small_int r) =
      in_range i16_limit Value.small_int (l +ℤ r)
  eval_add (CmpNumeric.integer l) (CmpNumeric.integer r) = in_range i32_limit Value.integer (l +ℤ r)
  eval_add (CmpNumeric.big_int l) (CmpNumeric.big_int r) = in_range i64_limit Value.big_int (l +ℤ r)
  eval_add (CmpNumeric.decimal l) (CmpNumeric.decimal r) = ok (Value.decimal (f.add l r))
  eval_add _ _ = panic

  unfoldable pub eval_sub : CmpNumeric D → CmpNumeric D → Exec (ExecutionError D) (Value D)
  eval_sub (CmpNumeric.small_int l) (CmpNumeric.small_int r) =
      in_range i16_limit Value.small_int (l -ℤ r)
  eval_sub (CmpNumeric.integer l) (CmpNumeric.integer r) = in_range i32_limit Value.integer (l -ℤ r)
  eval_sub (CmpNumeric.big_int l) (CmpNumeric.big_int r) = in_range i64_limit Value.big_int (l -ℤ r)
  eval_sub (CmpNumeric.decimal l) (CmpNumeric.decimal r) = ok (Value.decimal (f.sub l r))
  eval_sub _ _ = panic

  unfoldable pub eval_numeric_arithmetic :
      Value D
      → Value D
      → (CmpNumeric D → CmpNumeric D → Exec (ExecutionError D) (Value D))
      → Exec (ExecutionError D) (Value D)
  eval_numeric_arithmetic left right op = numeric_result_type left right >>= λ result_type.
      if is_null left || is_null right then ok (Value.null result_type) else (do
        l ← unwrap (cast_numeric left result_type)
        r ← unwrap (cast_numeric right result_type)
        op l r)

  unfoldable pub eval_arithmetic :
      ArithmeticType → Value D → Value D → Exec (ExecutionError D) (Value D)
  eval_arithmetic ArithmeticType.plus left right = eval_numeric_arithmetic left right eval_add
  eval_arithmetic ArithmeticType.minus left right = eval_numeric_arithmetic left right eval_sub

  abbrev pub float_order : PartialOrder D
  float_order = record { po_eq = f.feq; po_lt = f.flt; po_le = f.fle }

  -- The match of `eval_numeric_comparison`.
  unfoldable pub compare_numeric :
      CmpNumeric D → CmpNumeric D → ComparisonType → Exec (ExecutionError D) Bool
  compare_numeric (CmpNumeric.small_int l) (CmpNumeric.small_int r) t =
      ok (eval_ord_comparison int_order l r t)
  compare_numeric (CmpNumeric.integer l) (CmpNumeric.integer r) t =
      ok (eval_ord_comparison int_order l r t)
  compare_numeric (CmpNumeric.big_int l) (CmpNumeric.big_int r) t =
      ok (eval_ord_comparison int_order l r t)
  compare_numeric (CmpNumeric.decimal l) (CmpNumeric.decimal r) t =
      ok (eval_ord_comparison float_order l r t)
  compare_numeric _ _ t = panic

  unfoldable pub eval_numeric_comparison :
      Value D → Value D → ComparisonType → Exec (ExecutionError D) (Value D)
  eval_numeric_comparison left right t = numeric_result_type left right >>= λ result_type.
      if is_null left || is_null right then ok (Value.null SqlType.boolean) else (do
        l ← unwrap (cast_numeric left result_type)
        r ← unwrap (cast_numeric right result_type)
        res ← compare_numeric l r t
        ok (Value.boolean res))

  -- The last match of `eval_comparison`.
  unfoldable pub compare_other :
      Value D → Value D → ComparisonType → Exec (ExecutionError D) (Value D)
  compare_other (Value.boolean l) (Value.boolean r) t =
      ok (Value.boolean (eval_ord_comparison bool_order l r t))
  compare_other (Value.varchar l) (Value.varchar r) t =
      ok (Value.boolean (eval_ord_comparison bytes_order l r t))
  compare_other l r t = err (comparison_type_mismatch l r)

  unfoldable pub eval_comparison :
      Value D → Value D → ComparisonType → Exec (ExecutionError D) (Value D)
  eval_comparison left right t =
      if can_compare_as_numeric left right
      then eval_numeric_comparison left right t
      else if is_null left || is_null right
      then (if type_eq (sql_type left) (sql_type right)
          then ok (Value.null SqlType.boolean)
          else err (comparison_type_mismatch left right))
      else compare_other left right t

  unfoldable pub eval_comparison_is_true :
      Value D → Value D → ComparisonType → Exec (ExecutionError D) Bool
  eval_comparison_is_true left right t = do
    v ← eval_comparison left right t
    b ← expect_bool v
    ok (is_cmp_true b)

  unfoldable pub evaluate_expression :
      PlannedExpression D → List (Value D) → Exec (ExecutionError D) (Value D)
  evaluate_expression (column_value _ tuple_idx col_idx) row = do
    assert (tuple_idx == 0)
    or_panic (get_elem? row col_idx)
  evaluate_expression (constant_value _ value) row = ok value
  evaluate_expression (comparison _ left t right) row = do
    left_value ← evaluate_expression left row
    right_value ← evaluate_expression right row
    eval_comparison left_value right_value t
  evaluate_expression (arithmetic _ left t right) row = do
    left_value ← evaluate_expression left row
    right_value ← evaluate_expression right row
    eval_arithmetic t left_value right_value
  evaluate_expression (logic _ left t right) row = do
    left_value ← evaluate_expression left row
    left_bool ← expect_bool left_value
    right_value ← evaluate_expression right row
    right_bool ← expect_bool right_value
    eval_logic t left_bool right_bool
  evaluate_expression (not_of _ e) row = do v ← evaluate_expression e row; eval_not v
  evaluate_expression (negate _ e) row = do v ← evaluate_expression e row; eval_negate v
  evaluate_expression (null_check _ e t) row = do
    v ← evaluate_expression e row
    ok (eval_null_check t v)

  -- A column of one of the two rows; `todo!` panics.
  abbrev pub join_column :
      ℕ → ℕ → List (Value D) → List (Value D) → Exec (ExecutionError D) (Value D)
  join_column zero col_idx left right = or_panic (get_elem? left col_idx)
  join_column (suc zero) col_idx left right = or_panic (get_elem? right col_idx)
  join_column (suc (suc _)) col_idx left right = panic

  unfoldable pub evaluate_join_expression :
      PlannedExpression D → List (Value D) → List (Value D) → Exec (ExecutionError D) (Value D)
  evaluate_join_expression (column_value _ tuple_idx col_idx) left_row right_row =
      join_column tuple_idx col_idx left_row right_row
  evaluate_join_expression (constant_value _ value) left_row right_row = ok value
  evaluate_join_expression (comparison _ left t right) left_row right_row = do
    left_value ← evaluate_join_expression left left_row right_row
    right_value ← evaluate_join_expression right left_row right_row
    eval_comparison left_value right_value t
  evaluate_join_expression (arithmetic _ left t right) left_row right_row = do
    left_value ← evaluate_join_expression left left_row right_row
    right_value ← evaluate_join_expression right left_row right_row
    eval_arithmetic t left_value right_value
  evaluate_join_expression (logic _ left t right) left_row right_row = do
    left_value ← evaluate_join_expression left left_row right_row
    left_bool ← expect_bool left_value
    right_value ← evaluate_join_expression right left_row right_row
    right_bool ← expect_bool right_value
    eval_logic t left_bool right_bool
  evaluate_join_expression (not_of _ e) left_row right_row = do
    v ← evaluate_join_expression e left_row right_row
    eval_not v
  evaluate_join_expression (negate _ e) left_row right_row = do
    v ← evaluate_join_expression e left_row right_row
    eval_negate v
  evaluate_join_expression (null_check _ e t) left_row right_row = do
    v ← evaluate_join_expression e left_row right_row
    ok (eval_null_check t v)

  -- The match of `filter_keep_row` and `filter_join_row`.
  unfoldable pub keep : Value D → Exec (ExecutionError D) Bool
  keep (Value.boolean true) = ok true
  keep (Value.boolean false) = ok false
  keep (Value.null t) = ok false
  keep (Value.small_int i) = err (expected_boolean (Value.small_int i))
  keep (Value.integer i) = err (expected_boolean (Value.integer i))
  keep (Value.big_int i) = err (expected_boolean (Value.big_int i))
  keep (Value.decimal x) = err (expected_boolean (Value.decimal x))
  keep (Value.varchar s) = err (expected_boolean (Value.varchar s))

  unfoldable pub filter_keep_row :
      PlannedExpression D → List (Value D) → Exec (ExecutionError D) Bool
  filter_keep_row predicate row = evaluate_expression predicate row >>= keep

  unfoldable pub filter_join_row :
      PlannedExpression D → List (Value D) → List (Value D) → Exec (ExecutionError D) Bool
  filter_join_row predicate left right = evaluate_join_expression predicate left right >>= keep
