-- ===== src/Query/Aggregation/Count.antt =====
-- What `combine_aggregate_values` of src/query/executor/aggregation.rs computes over the rows of a group.
use oxtub.Base.{
  ℕ, zero, suc, ◌+◌, ◌<◌, ◌≡◌, refl, ap, sym, subst, ◌∙◌, inl, inr, true, false, List, [], ◌∷◌,
  arith, Bool-cases, if◌then◌else◌, Exec, ok, ◌>>=◌,
}
use oxtub.Base.Int.{pos, Fits, ◌+ℤ◌, i32_limit}
use oxtub.Query.Aggregation.Defs.{AggregationType, count, combine_value}
use oxtub.Query.Eval.Arithmetic.{is_integer, eval_arithmetic-exact}
use oxtub.Query.Eval.Defs.{eval_arithmetic}
use oxtub.Query.Expression.{ArithmeticType, ExecutionError}
use oxtub.Value.{SqlType, Floats, Value, is_null}

one_more : (n : ℕ) → pos n +ℤ pos 1 ≡ pos (suc n)
unfolding ◌+ℤ◌
one_more n = ground arith

module _ {D : Type 0} ⦃f : Floats D⦄ where
  -- All rows of a group, one after the other.
  abbrev pub combine_all :
      AggregationType → Value D → List (Value D) → Exec (ExecutionError D) (Value D)
  combine_all t acc [] = ok acc
  combine_all t acc (v ∷ vs) = combine_value t acc v >>= λ next. combine_all t next vs

  -- The rows whose value is not NULL.
  abbrev pub present : List (Value D) → ℕ
  present [] = 0
  present (v ∷ vs) = (if is_null v then 0 else 1) + present vs

  -- NULL stands for no row.
  abbrev pub counter : ℕ → Value D
  counter zero = Value.null SqlType.integer
  counter (suc n) = Value.integer (pos (suc n))

  count_step :
      (n : ℕ) (v : Value D)
      → suc n < i32_limit
      → is_null v ≡ false
      → combine_value count (counter n) v ≡ ok (counter (suc n))
  unfolding combine_value
  count_step zero v h e = rw e refl
  count_step (suc n) v h e =
      let exact_sum = one_more (suc n) in
      let add : eval_arithmetic {D = D} ArithmeticType.plus (Value.integer (pos (suc n)))
            (Value.integer (pos 1))
          ≡ ok (Value.integer (pos (suc n) +ℤ pos 1)) =
        (eval_arithmetic-exact ArithmeticType.plus (is_integer (pos (suc n)))
            (is_integer (pos 1))).0
          (subst (Fits i32_limit) (sym exact_sum) (h, omega arith)) in
      rw (e, add) (ap (λ x. ok (Value.integer x)) exact_sum)

  count_skip : (acc v : Value D) → is_null v ≡ true → combine_value count acc v ≡ ok acc
  unfolding combine_value
  count_skip acc v e = rw e refl

  -- COUNT goes on from `n` rows by the number of the rows whose value is not NULL, whatever their types, as
  -- long as the sum fits an INTEGER. No row at all counts as NULL.
  pub combine_all-counter :
      (n : ℕ) (vs : List (Value D))
      → n + present vs < i32_limit
      → combine_all count (counter n) vs ≡ ok (counter (n + present vs))
  combine_all-counter n [] h = ap (λ m. ok (counter m)) (omega arith)
  combine_all-counter n (v ∷ vs) h = elim (Bool-cases (is_null v)) [
    | inl e ↦
        let few : n + present vs < i32_limit = ground arith in
        rw (count_skip (counter n) v e, e)
          (combine_all-counter n vs few ∙ ap (λ m. ok (counter m)) (omega arith))
    | inr e ↦
        let few : suc n + present vs < i32_limit = ground arith in
        rw (count_step n v (omega arith) e, e)
          (combine_all-counter (suc n) vs few ∙ ap (λ m. ok (counter m)) (omega arith))
  ]
