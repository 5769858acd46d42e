-- ===== src/Query/Aggregation/Extremes.antt =====
-- MIN and MAX of src/query/executor/aggregation.rs over integers.
use oxtub.Base.{
  ◌+◌, ◌≤◌, ◌≡◌, refl, ap, subst, ◌∙◌, inl, inr, ◌⊎◌, Bool, true, false, List, [], ◌∷◌, arith,
  Bool-cases, ok, All, Has,
}
use oxtub.Base.Int.{ℤ, pos_part, neg_part}
use oxtub.Query.Aggregation.Count.{combine_all}
use oxtub.Query.Aggregation.Defs.{AggregationType, count, sum, min, max, combine_value, keep_better}
use oxtub.Query.Eval.Arithmetic.{is_integer, eval_comparison_integers, Compares}
use oxtub.Query.Eval.Defs.{eval_comparison, eval_comparison_is_true, expect_bool}
use oxtub.Query.Expression.{ComparisonType}
use oxtub.Value.{SqlType, Floats, Value}

abbrev pub AtMost : ℤ → ℤ → Type 0
AtMost a b = pos_part a + neg_part b ≤ pos_part b + neg_part a

pub data IsExtreme : AggregationType → ComparisonType → Type 0 where
  is_min : IsExtreme min ComparisonType.less_than
  is_max : IsExtreme max ComparisonType.greater_than

-- `a` is what the aggregate keeps of `a` and `b`.
abbrev pub Beats : AggregationType → ℤ → ℤ → Type 0
Beats min a b = AtMost a b
Beats max a b = AtMost b a
Beats count a b = ⊥
Beats sum a b = ⊥

Beats-refl : (t : AggregationType) (c : ComparisonType) (a : ℤ) → IsExtreme t c → Beats t a a
Beats-refl _ _ a is_min = omega arith
Beats-refl _ _ a is_max = omega arith

Beats-trans :
    (t : AggregationType) (c : ComparisonType) (x y z : ℤ)
    → IsExtreme t c
    → Beats t x y
    → Beats t y z
    → Beats t x z
Beats-trans _ _ x y z is_min h h' = omega arith
Beats-trans _ _ x y z is_max h h' = omega arith

better-Beats :
    (t : AggregationType) (c : ComparisonType) (x m : ℤ)
    → IsExtreme t c
    → Compares c x m
    → Beats t x m
better-Beats _ _ x m is_min h = omega arith
better-Beats _ _ x m is_max h = omega arith

worse-Beats :
    (t : AggregationType) (c : ComparisonType) (x m : ℤ)
    → IsExtreme t c
    → (Compares c x m → ⊥)
    → Beats t m x
worse-Beats _ _ x m is_min h = ground arith
worse-Beats _ _ x m is_max h = ground arith

module _ {D : Type 0} ⦃f : Floats D⦄ where
  -- An INTEGER or NULL.
  abbrev pub IntegerOrNull : Value D → Type 0
  IntegerOrNull (Value.integer i) = Unit
  IntegerOrNull (Value.null t) = Unit
  IntegerOrNull (Value.boolean b) = ⊥
  IntegerOrNull (Value.small_int i) = ⊥
  IntegerOrNull (Value.big_int i) = ⊥
  IntegerOrNull (Value.decimal x) = ⊥
  IntegerOrNull (Value.varchar s) = ⊥

  comparison_truth :
      (c : ComparisonType) (x m : ℤ) (b : Bool)
      → eval_comparison {D = D} (Value.integer x) (Value.integer m) c ≡ ok (Value.boolean b)
      → eval_comparison_is_true {D = D} (Value.integer x) (Value.integer m) c ≡ ok b
  unfolding eval_comparison_is_true expect_bool
  comparison_truth c x m true e = rw e refl
  comparison_truth c x m false e = rw e refl

  extreme_compares :
      (t : AggregationType) (c : ComparisonType) (m x : ℤ)
      → IsExtreme t c
      → combine_value {D = D} t (Value.integer m) (Value.integer x)
        ≡ keep_better c (Value.integer m) (Value.integer x)
  unfolding combine_value
  extreme_compares _ _ m x is_min = refl
  extreme_compares _ _ m x is_max = refl

  extreme_null :
      (t : AggregationType) (acc : Value D) (s : SqlType)
      → combine_value t acc (Value.null s) ≡ ok acc
  unfolding combine_value
  extreme_null t acc s = refl

  extreme_step :
      (t : AggregationType) (c : ComparisonType) (m x : ℤ)
      → IsExtreme t c
      → (r : ℤ) × (combine_value {D = D} t (Value.integer m) (Value.integer x)
          ≡ ok (Value.integer r))
        × Beats t r m
        × Beats t r x
        × ((m ≡ r) ⊎ (x ≡ r))
  extreme_step t c m x k =
      let (b, e, iff) = eval_comparison_integers {D = D} c (is_integer x) (is_integer m) in
      let truth = comparison_truth c x m b e in
      elim (Bool-cases b) [
        | inl yes_better ↦ (
          x,
          extreme_compares t c m x k ∙ rw (truth, yes_better) refl,
          better-Beats t c x m k (iff.0 yes_better),
          Beats-refl t c x k,
          inr refl,
        )
        | inr no_better ↦ (
          m,
          extreme_compares t c m x k ∙ rw (truth, no_better) refl,
          Beats-refl t c m k,
          worse-Beats t c x m k (λ h. absurd (cc (no_better, iff.1 h))),
          inl refl,
        )
      ]

  -- MIN and MAX go on from an INTEGER over rows of INTEGER or NULL values without an error: the result is
  -- that INTEGER or one of the rows, and none of them is less, or greater for MAX.
  pub combine_all-Beats :
      (t : AggregationType) (c : ComparisonType) (m : ℤ) (vs : List (Value D))
      → IsExtreme t c
      → All IntegerOrNull vs
      → (r : ℤ) × (combine_all t (Value.integer m) vs ≡ ok (Value.integer r))
        × Beats t r m
        × ((x : ℤ) → Has (Value.integer x) vs → Beats t r x)
        × ((m ≡ r) ⊎ Has (Value.integer r) vs)
  combine_all-Beats t c m [] k a = (m, refl, Beats-refl t c m k, λ x h. elim h [ ], inl refl)
  combine_all-Beats t c m (Value.null s ∷ vs) k a =
      let (r, runs, low, all, from) = combine_all-Beats t c m vs k a.1 in
      (
        r,
        rw (extreme_null t (Value.integer m) s) runs,
        low,
        λ x h. elim h [ inl e ↦ absurd (cc e) | inr h' ↦ all x h' ],
        elim from [ inl e ↦ inl e | inr h ↦ inr (inr h) ],
      )
  combine_all-Beats t c m (Value.integer x ∷ vs) k a =
      let (n, step, low_m, low_x, kept) = extreme_step t c m x k in
      let (r, runs, low, all, from) = combine_all-Beats t c n vs k a.1 in
      (
        r,
        rw step runs,
        Beats-trans t c r n m k low low_m,
        λ y h. elim h [
          | inl e ↦ subst (Beats t r) (integer-injective x y e) (Beats-trans t c r n x k low low_x)
          | inr h' ↦ all y h'
        ],
        elim from [
          | inl e ↦ elim kept [
            | inl e' ↦ inl (e' ∙ e)
            | inr e' ↦ inr (inl (ap Value.integer (e' ∙ e)))
          ]
          | inr h ↦ inr (inr h)
        ],
      )
    where
      integer-injective : (x y : ℤ) → ◌≡◌ {A = Value D} (Value.integer x) (Value.integer y) → x ≡ y
      integer-injective x y e = cc
  combine_all-Beats t c m (Value.boolean b ∷ vs) k a = elim a.0 [ ]
  combine_all-Beats t c m (Value.small_int i ∷ vs) k a = elim a.0 [ ]
  combine_all-Beats t c m (Value.big_int i ∷ vs) k a = elim a.0 [ ]
  combine_all-Beats t c m (Value.decimal y ∷ vs) k a = elim a.0 [ ]
  combine_all-Beats t c m (Value.varchar s ∷ vs) k a = elim a.0 [ ]
