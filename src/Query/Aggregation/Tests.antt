-- ===== src/Query/Aggregation/Tests.antt =====
-- Witnesses, where `f64` is a type of one number.
use oxtub.Base.{◌+◌, ◌<◌, ◌≡◌, ◌⊎◌, true, List, [], ◌∷◌, arith, ok, Has}
use oxtub.Base.Int.{ℤ, pos, negsuc, i32_limit}
use oxtub.Query.Aggregation.Count.{combine_all, present, counter, combine_all-counter}
use oxtub.Query.Aggregation.Defs.{count, min}
use oxtub.Query.Aggregation.Extremes.{Beats, is_min, combine_all-Beats}
use oxtub.Query.Expression.{ComparisonType}
use oxtub.Value.{SqlType, Floats, Value}

abbrev One : Type 0
One = Unit {0}

instance one_Floats : Floats One
one_Floats = record {
  add = λ x y. tt;
  sub = λ x y. tt;
  negate = λ x. tt;
  feq = λ x y. true;
  flt = λ x y. true;
  fle = λ x y. true;
  of_int = λ i. tt;
}

abbrev rows : List (Value One)
rows = Value.integer (pos 3) ∷ Value.null SqlType.integer ∷ Value.integer (negsuc 1) ∷ []

rows_few : 1 + present rows < i32_limit
unfolding i32_limit
rows_few = omega arith

combine_all-counter_example : combine_all count (counter 1) rows ≡ ok (counter (1 + present rows))
combine_all-counter_example = combine_all-counter 1 rows rows_few

combine_all-Beats_example :
    (r : ℤ) × (combine_all {D = One} min (Value.integer (pos 2)) rows ≡ ok (Value.integer r))
    × Beats min r (pos 2)
    × ((x : ℤ) → Has (Value.integer x) rows → Beats min r x)
    × ((pos 2 ≡ r) ⊎ Has (Value.integer r) rows)
combine_all-Beats_example =
    combine_all-Beats min ComparisonType.less_than (pos 2) rows is_min (tt, (tt, (tt, tt)))
