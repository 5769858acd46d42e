-- ===== src/Query/Aggregation/Defs.antt =====
-- The table of src/query/executor/aggregation.rs. When a value of a group cannot be combined the query
-- fails; what the group holds then is not modelled.
use oxtub.Base.{
  ℕ, Bool, true, false, not, ◌&&◌, ◌||◌, List, [], ◌∷◌, ◌==◌, if◌then◌else◌, Exec, ok, ◌>>=◌,
}
use oxtub.Base.Int.{pos, eqb_ℤ}
use oxtub.Query.Eval.Defs.{eval_arithmetic, eval_comparison_is_true}
use oxtub.Query.Expression.{ArithmeticType, ComparisonType, ExecutionError, PlannedExpression}
use oxtub.Value.{SqlType, Floats, Value, is_null, type_eq}

pub data AggregationType : Type 0 where
  count sum min max : AggregationType

-- `==` of strings.
abbrev pub bytes_eq : List ℕ → List ℕ → Bool
bytes_eq [] [] = true
bytes_eq (a ∷ s) (b ∷ t) = a == b && bytes_eq s t
bytes_eq [] (b ∷ t) = false
bytes_eq (a ∷ s) [] = false

module _ {D : Type 0} ⦃f : Floats D⦄ where
  abbrev pub is_nan : D → Bool
  is_nan x = not (f.feq x x)

  -- The match in `PartialEq` of `AggregateKey`: two NaNs are one group.
  unfoldable pub group_eq : Value D → Value D → Bool
  group_eq (Value.boolean a) (Value.boolean b) = if a then b else not b
  group_eq (Value.small_int a) (Value.small_int b) = eqb_ℤ a b
  group_eq (Value.integer a) (Value.integer b) = eqb_ℤ a b
  group_eq (Value.big_int a) (Value.big_int b) = eqb_ℤ a b
  group_eq (Value.decimal a) (Value.decimal b) = (is_nan a && is_nan b) || f.feq a b
  group_eq (Value.varchar a) (Value.varchar b) = bytes_eq a b
  group_eq (Value.null a) (Value.null b) = type_eq a b
  group_eq _ _ = false

  -- `AggregateKey::eq`
  abbrev pub key_eq : List (Value D) → List (Value D) → Bool
  key_eq [] [] = true
  key_eq (a ∷ s) (b ∷ t) = group_eq a b && key_eq s t
  key_eq [] (b ∷ t) = false
  key_eq (a ∷ s) [] = false

  unfoldable pub make_initial_value : List (AggregationType × PlannedExpression D) → List (Value D)
  make_initial_value [] = []
  make_initial_value (a ∷ aggregations) =
      Value.null SqlType.integer ∷ make_initial_value aggregations

  -- The branch of `Min` and `Max`.
  abbrev pub keep_better : ComparisonType → Value D → Value D → Exec (ExecutionError D) (Value D)
  keep_better t prev_val new_val = eval_comparison_is_true new_val prev_val t >>= λ better.
      ok (if better then new_val else prev_val)

  abbrev pub combine_present :
      AggregationType → Value D → Value D → Exec (ExecutionError D) (Value D)
  combine_present count prev_val new_val =
      eval_arithmetic ArithmeticType.plus prev_val (Value.integer (pos 1))
  combine_present sum prev_val new_val = eval_arithmetic ArithmeticType.plus prev_val new_val
  combine_present min prev_val new_val = keep_better ComparisonType.less_than prev_val new_val
  combine_present max prev_val new_val = keep_better ComparisonType.greater_than prev_val new_val

  abbrev pub first_value : AggregationType → Value D → Value D
  first_value count new_val = Value.integer (pos 1)
  first_value sum new_val = new_val
  first_value min new_val = new_val
  first_value max new_val = new_val

  -- One turn of the loop of `combine_aggregate_values`.
  unfoldable pub combine_value :
      AggregationType → Value D → Value D → Exec (ExecutionError D) (Value D)
  combine_value aggregation_type prev_val new_val =
      if is_null new_val
      then ok prev_val
      else if is_null prev_val
      then ok (first_value aggregation_type new_val)
      else combine_present aggregation_type prev_val new_val

  unfoldable pub combine_aggregate_values :
      List (AggregationType × PlannedExpression D)
      → List (Value D)
      → List (Value D)
      → Exec (ExecutionError D) (List (Value D))
  combine_aggregate_values ((t, _) ∷ aggregations) (prev_val ∷ left) (new_val ∷ right) = do
    val ← combine_value t prev_val new_val
    vals ← combine_aggregate_values aggregations left right
    ok (val ∷ vals)
  combine_aggregate_values _ left _ = ok left

  -- The entry of a key, in a table in any order.
  unfoldable pub insert_combine :
      List (AggregationType × PlannedExpression D)
      → List (Value D)
      → List (Value D)
      → List (List (Value D) × List (Value D))
      → Exec (ExecutionError D) (List (List (Value D) × List (Value D)))
  insert_combine aggregations key value [] = ok ((key, value) ∷ [])
  insert_combine aggregations key value ((k, vals) ∷ table) =
      let rest = insert_combine aggregations key value table in
      if key_eq key k
      then (combine_aggregate_values aggregations vals value >>= λ combined.
          ok ((k, combined) ∷ table))
      else rest >>= λ combined. ok ((k, vals) ∷ combined)
