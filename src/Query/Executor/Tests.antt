-- ===== src/Query/Executor/Tests.antt =====
-- Witnesses, over an executor that hands out the rows of a list.
use oxtub.Base.{
  ℕ, zero, suc, ◌≤◌, ◌≡◌, refl, ap, none, some, List, [], ◌∷◌, ◌++◌, length, take, drop, ok, arith,
  Bool, true, false,
}
use oxtub.Base.Int.{ℤ, ◌+ℤ◌, ◌-ℤ◌, neg, eqb_ℤ, ltb_ℤ}
use oxtub.Query.Eval.Defs.{filter_keep_row, keep, evaluate_expression}
use oxtub.Query.Executor.Defs.{
  ExecutorRow, Rows, Executor, LimitExecutor, FilterExecutor, limit_next, filter_loop,
}
use oxtub.Query.Expression.{PlannedExpression, column_value}
use oxtub.Query.Executor.Drain.{Agrees}
use oxtub.Query.Executor.Filtering.{Filtered, filter_loop-Filtered}
use oxtub.Query.Executor.Streams.{IsStream, Pulls, limit_left, limit_next-Pulls}
use oxtub.Value.{Floats, SqlType, Value}

abbrev list_executor : Executor ℤ (Rows ℤ)
list_executor = record { init = λ s. ok s; next = λ n s. ok (take n s, drop n s) }

take-drop : {A : Type 0} (n : ℕ) (xs : List A) → xs ≡ take n xs ++ drop n xs
take-drop zero xs = refl
take-drop (suc n) [] = refl
take-drop (suc n) (x ∷ xs) = ap (◌∷◌ x) (take-drop n xs)

take-length_le : {A : Type 0} (n : ℕ) (xs : List A) → length (take n xs) ≤ n
take-length_le zero xs = omega arith
take-length_le (suc n) [] = omega arith
take-length_le (suc n) (x ∷ xs) = omega (arith, take-length_le n xs)

take_none : {A : Type 0} (n : ℕ) (xs : List A) → length (take (suc n) xs) ≡ 0 → xs ≡ []
take_none n [] h = refl
take_none n (x ∷ xs) h = absurd (omega arith)

list_executor-IsStream : IsStream list_executor (λ s. s) (λ s. Unit)
list_executor-IsStream zero s h g = absurd (omega arith)
list_executor-IsStream (suc n) s h g = record {
  out = take (suc n) s;
  rest = drop (suc n) s;
  returns = refl;
  parts = take-drop (suc n) s;
  bounded = take-length_le (suc n) s;
  ends = take_none n s;
  good = tt;
}

abbrev number : ℕ → ExecutorRow ℤ
number n = record { rid = none; values = Value.integer (ℤ.pos n) ∷ [] }

-- Three rows, of which two remain to be handed out.
abbrev state : LimitExecutor (Rows ℤ)
state = record { child = number 1 ∷ number 2 ∷ number 3 ∷ []; remaining = some 2 }

limit_next-Pulls_example :
    Pulls 5
      (limit_left list_executor (λ s. s))
      (λ t. Unit)
      (limit_left list_executor (λ s. s) state)
      (limit_next list_executor 5 state)
limit_next-Pulls_example =
    limit_next-Pulls list_executor (λ s. s) (λ s. Unit) list_executor-IsStream 5 state (omega arith)
      tt

-- Decimals are whole numbers here.
instance whole_floats : Floats ℤ
whole_floats = record {
  add = λ a b. a +ℤ b;
  sub = λ a b. a -ℤ b;
  negate = neg;
  feq = λ a b. eqb_ℤ a b;
  flt = λ a b. ltb_ℤ a b;
  fle = λ a b. ltb_ℤ a b;
  of_int = λ a. a;
}

abbrev flag : Bool → ExecutorRow ℤ
flag b = record { rid = none; values = Value.boolean b ∷ [] }

-- The predicate is the column.
abbrev column : PlannedExpression ℤ
column = column_value (record { sql_type = SqlType.boolean; varchar_size = none }) 0 0

abbrev is_set : ExecutorRow ℤ → Bool
is_set row = holds row.values
  where
    holds : List (Value ℤ) → Bool
    holds (Value.boolean b ∷ vs) = b
    holds _ = false

abbrev unfiltered : FilterExecutor ℤ (Rows ℤ)
unfiltered = record {
  child = flag true ∷ flag false ∷ flag true ∷ [];
  buffered_rows = flag false ∷ flag true ∷ [];
}

unfiltered-Agrees : Agrees column is_set (unfiltered.buffered_rows ++ unfiltered.child)
unfolding filter_keep_row evaluate_expression keep
unfiltered-Agrees = (refl, (refl, (refl, (refl, (refl, tt)))))

filter_loop-Filtered_example :
    (out : Rows ℤ) × (t : FilterExecutor ℤ (Rows ℤ)) × (filter_loop list_executor 4 column 2 []
        unfiltered
      ≡ ok (some (out, t)))
    × Filtered list_executor (λ s. s) (λ s. Unit) column is_set 2 [] unfiltered out t
filter_loop-Filtered_example =
    filter_loop-Filtered list_executor (λ s. s) (λ s. Unit) column is_set list_executor-IsStream 4 2
      unfiltered (omega arith) (omega arith) tt unfiltered-Agrees
