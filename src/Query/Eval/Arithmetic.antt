-- ===== src/Query/Eval/Arithmetic.antt =====
-- Integer arithmetic and comparison of src/query/executor/expression.rs, across widths.
use oxtub.Base.{ℕ, ◌≡◌, refl, ◌↔◌, ◌⊎◌, inl, inr, Bool, true, not, ok, err, arith, Bool-cases}
use oxtub.Base.Int.{
  ℤ, ◌+ℤ◌, ◌-ℤ◌, ◌<ℤ◌, Fits, i16_limit, i32_limit, i64_limit, ltb_ℤ, eqb_ℤ, eq_of_eqb,
}
use oxtub.Query.Eval.Defs.{
  int_order, eval_ord_comparison, is_numeric_type, expect_numeric_type, wider_type,
  numeric_result_type, can_compare_as_numeric, in_range, cast_numeric, eval_add, eval_sub,
  eval_numeric_arithmetic, eval_arithmetic, compare_numeric, eval_numeric_comparison,
  eval_comparison,
}
use oxtub.Query.Eval.Typing.{widest}
use oxtub.Query.Expression.{ComparisonType, ArithmeticType, numeric_out_of_range}
use oxtub.Value.{SqlType, Floats, Value, sql_type}

-- `v` is the integer `x`, of any of the three widths.
pub data IsInt {D : Type 0} : Value D → ℤ → Type 0 where
  is_small_int : (x : ℤ) → IsInt (Value.small_int x) x
  is_integer : (x : ℤ) → IsInt (Value.integer x) x
  is_big_int : (x : ℤ) → IsInt (Value.big_int x) x

-- The bound of an integer type.
abbrev pub limit : SqlType → ℕ
limit SqlType.small_int = i16_limit
limit SqlType.integer = i32_limit
limit SqlType.big_int = i64_limit
limit SqlType.boolean = 0
limit SqlType.decimal = 0
limit SqlType.varchar = 0

abbrev pub exact : ArithmeticType → ℤ → ℤ → ℤ
exact ArithmeticType.plus x y = x +ℤ y
exact ArithmeticType.minus x y = x -ℤ y

-- The integer `x` as a value of an integer type.
abbrev pub int_value : {D : Type 0} → SqlType → ℤ → Value D
int_value SqlType.small_int x = Value.small_int x
int_value SqlType.integer x = Value.integer x
int_value SqlType.big_int x = Value.big_int x
int_value SqlType.boolean x = Value.null SqlType.boolean
int_value SqlType.decimal x = Value.null SqlType.boolean
int_value SqlType.varchar x = Value.null SqlType.boolean

module _ {D : Type 0} ⦃f : Floats D⦄ where
  arithmetic_at :
      (o : ArithmeticType) {v w : Value D} {x y : ℤ}
      → IsInt v x
      → IsInt w y
      → eval_arithmetic o v w
        ≡ in_range
            (limit (widest (sql_type v) (sql_type w)))
            (int_value (widest (sql_type v) (sql_type w)))
            (exact o x y)
  unfolding eval_arithmetic is_numeric_type eval_numeric_arithmetic numeric_result_type
      expect_numeric_type wider_type cast_numeric eval_add eval_sub
  arithmetic_at o (is_small_int x) (is_small_int y) = ground arith
  arithmetic_at o (is_small_int x) (is_integer y) = ground arith
  arithmetic_at o (is_small_int x) (is_big_int y) = ground arith
  arithmetic_at o (is_integer x) (is_small_int y) = ground arith
  arithmetic_at o (is_integer x) (is_integer y) = ground arith
  arithmetic_at o (is_integer x) (is_big_int y) = ground arith
  arithmetic_at o (is_big_int x) (is_small_int y) = ground arith
  arithmetic_at o (is_big_int x) (is_integer y) = ground arith
  arithmetic_at o (is_big_int x) (is_big_int y) = ground arith

  -- The sum and the difference of two integers, of any widths, are exact, at the wider of the two
  -- types, if that type can hold them; if not, the result is `NumericOutOfRange`. Nothing wraps.
  pub eval_arithmetic-exact :
      (o : ArithmeticType) {v w : Value D} {x y : ℤ}
      → IsInt v x
      → IsInt w y
      → let t = widest (sql_type v) (sql_type w) in
        (Fits (limit t) (exact o x y) → eval_arithmetic o v w ≡ ok (int_value t (exact o x y)))
        × (¬ Fits (limit t) (exact o x y) → eval_arithmetic o v w ≡ err numeric_out_of_range)
  eval_arithmetic-exact o {v} {w} {x} {y} p q =
      let t = widest (sql_type v) (sql_type w) in
      rw (arithmetic_at o p q) (
        in_range_fits (limit t) (int_value t) (exact o x y),
        in_range_beyond (limit t) (int_value t) (exact o x y),
      )
    where
      in_range_fits :
          (n : ℕ) (wrap : ℤ → Value D) (z : ℤ) → Fits n z → in_range n wrap z ≡ ok (wrap z)
      in_range_fits n wrap z h = ground arith

      in_range_beyond :
          (n : ℕ) (wrap : ℤ → Value D) (z : ℤ)
          → ¬ Fits n z
          → in_range n wrap z ≡ err numeric_out_of_range
      in_range_beyond n wrap z h = ground arith

  comparison_at :
      (t : ComparisonType) {v w : Value D} {x y : ℤ}
      → IsInt v x
      → IsInt w y
      → eval_comparison v w t ≡ ok (Value.boolean (eval_ord_comparison int_order x y t))
  unfolding eval_comparison can_compare_as_numeric is_numeric_type eval_numeric_comparison
      numeric_result_type expect_numeric_type wider_type cast_numeric compare_numeric
  comparison_at t (is_small_int x) (is_small_int y) = refl
  comparison_at t (is_small_int x) (is_integer y) = refl
  comparison_at t (is_small_int x) (is_big_int y) = refl
  comparison_at t (is_integer x) (is_small_int y) = refl
  comparison_at t (is_integer x) (is_integer y) = refl
  comparison_at t (is_integer x) (is_big_int y) = refl
  comparison_at t (is_big_int x) (is_small_int y) = refl
  comparison_at t (is_big_int x) (is_integer y) = refl
  comparison_at t (is_big_int x) (is_big_int y) = refl

-- What a comparison of two integers means.
abbrev pub Compares : ComparisonType → ℤ → ℤ → Type 0
Compares ComparisonType.eq x y = x ≡ y
Compares ComparisonType.not_eq x y = ¬ (x ≡ y)
Compares ComparisonType.less_than x y = x <ℤ y
Compares ComparisonType.less_than_or_equal x y = (x <ℤ y) ⊎ (x ≡ y)
Compares ComparisonType.greater_than x y = y <ℤ x
Compares ComparisonType.greater_than_or_equal x y = (y <ℤ x) ⊎ (x ≡ y)

not_eqb : (x y : ℤ) → ¬ (x ≡ y) → not (eqb_ℤ x y) ≡ true
not_eqb x y ne = elim (Bool-cases (eqb_ℤ x y)) [
  | inl e ↦ absurd (ne (eq_of_eqb x y e))
  | inr e ↦ rw e
]

le_cases : (x y : ℤ) → not (ltb_ℤ y x) ≡ true → (x <ℤ y) ⊎ (x ≡ y)
le_cases x y h = elim (Bool-cases (eqb_ℤ x y)) [
  | inl e ↦ inr (eq_of_eqb x y e)
  | inr e ↦ inl (ground arith)
]

ge_cases : (x y : ℤ) → not (ltb_ℤ x y) ≡ true → (y <ℤ x) ⊎ (x ≡ y)
ge_cases x y h = elim (Bool-cases (eqb_ℤ x y)) [
  | inl e ↦ inr (eq_of_eqb x y e)
  | inr e ↦ inl (ground arith)
]

ord_comparison_iff :
    (t : ComparisonType) (x y : ℤ) → (eval_ord_comparison int_order x y t ≡ true) ↔ Compares t x y
unfolding eval_ord_comparison
ord_comparison_iff ComparisonType.eq x y = (eq_of_eqb x y, λ e. ground arith)
ord_comparison_iff ComparisonType.not_eq x y =
    ((λ h e. absurd (ground arith)), λ ne. not_eqb x y ne)
ord_comparison_iff ComparisonType.less_than x y = (λ h. ground arith, λ h. ground arith)
ord_comparison_iff ComparisonType.less_than_or_equal x y = (λ h. le_cases x y h, λ h. ground arith)
ord_comparison_iff ComparisonType.greater_than x y = (λ h. ground arith, λ h. ground arith)
ord_comparison_iff ComparisonType.greater_than_or_equal x y =
    (λ h. ge_cases x y h, λ h. ground arith)

module _ {D : Type 0} ⦃f : Floats D⦄ where
  -- A comparison of two integers, of any widths, returns a Boolean, and it is true exactly when
  -- the integers compare so.
  pub eval_comparison_integers :
      (t : ComparisonType) {v w : Value D} {x y : ℤ}
      → IsInt v x
      → IsInt w y
      → (b : Bool) × (eval_comparison v w t ≡ ok (Value.boolean b)) × ((b ≡ true) ↔ Compares t x y)
  eval_comparison_integers t {x = x} {y = y} p q =
      (eval_ord_comparison int_order x y t, comparison_at t p q, ord_comparison_iff t x y)
