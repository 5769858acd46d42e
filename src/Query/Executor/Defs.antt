-- ===== src/Query/Executor/Defs.antt =====
-- The trait `Executor` of src/query/executor/executor.rs, and limit.rs, filter.rs, projection.rs and
-- values.rs beside it. An executor is its state; after an error it is not used again.
use oxtub.Base.{
  ℕ, zero, suc, ◌-◌, Bool, true, false, Option, none, some, List, [], ◌∷◌, ◌++◌, length, take, drop,
  leb, ◌==◌, if◌then◌else◌, Exec, ok, err, panic, ◌>>=◌, or_panic, add_usize, sub_usize,
}
use oxtub.Base.Int.{ℤ}
use oxtub.BTree.Keys.{Rid}
use oxtub.Query.Eval.Defs.{evaluate_expression, filter_keep_row}
use oxtub.Query.Expression.{PlannedExpression, ExecutionError, negative_limit, expected_integer}
use oxtub.Value.{Floats, Value}

pub record ExecutorRow (D : Type 0) : Type 0 where
  pub rid : Option Rid
  pub values : List (Value D)

abbrev pub Rows : Type 0 → Type 0
Rows D = List (ExecutorRow D)

-- The trait, over the state `S` of an executor.
pub record Executor (D S : Type 0) : Type 0 where
  pub init : S → Exec (ExecutionError D) S
  pub next : ℕ → S → Exec (ExecutionError D) (Rows D × S)

abbrev pub empty_row : {D : Type 0} → ExecutorRow D
empty_row = record { rid = none; values = [] }

-- `min` on `usize`
abbrev pub smaller : ℕ → ℕ → ℕ
smaller a b = if leb a b then a else b

pub record LimitExecutor (S : Type 0) : Type 0 where
  pub child : S
  pub remaining : Option ℕ

pub record FilterExecutor (D S : Type 0) : Type 0 where
  pub child : S
  pub buffered_rows : Rows D

-- The match of `LimitExecutor::init`; every limit that is not negative fits in a `usize`.
abbrev pub limit_of : {D : Type 0} → Value D → Exec (ExecutionError D) (Option ℕ)
limit_of (Value.null t) = ok none
limit_of (Value.small_int (ℤ.pos n)) = ok (some n)
limit_of (Value.integer (ℤ.pos n)) = ok (some n)
limit_of (Value.big_int (ℤ.pos n)) = ok (some n)
limit_of (Value.small_int (ℤ.negsuc n)) = err negative_limit
limit_of (Value.integer (ℤ.negsuc n)) = err negative_limit
limit_of (Value.big_int (ℤ.negsuc n)) = err negative_limit
limit_of (Value.boolean b) = err (expected_integer (Value.boolean b))
limit_of (Value.decimal x) = err (expected_integer (Value.decimal x))
limit_of (Value.varchar s) = err (expected_integer (Value.varchar s))

module _ {D S : Type 0} ⦃f : Floats D⦄ (e : Executor D S) where
  unfoldable pub limit_init :
      PlannedExpression D → LimitExecutor S → Exec (ExecutionError D) (LimitExecutor S)
  limit_init limit s = do
    child ← e.init s.child
    value ← evaluate_expression limit (empty_row.values)
    remaining ← limit_of value
    ok (record { child = child; remaining = remaining })

module _ {D S : Type 0} where
  -- `*remaining -= batch.len()`
  abbrev pub limit_rest : Option ℕ → Rows D × S → Exec (ExecutionError D) (Rows D × LimitExecutor S)
  limit_rest none (batch, child) = ok (batch, record { child = child; remaining = none })
  limit_rest (some remaining) (batch, child) = do
    rest ← or_panic (sub_usize remaining (length batch))
    ok (batch, record { child = child; remaining = some rest })

module _ {D S : Type 0} (e : Executor D S) where
  abbrev pub limit_pull : ℕ → S → Option ℕ → Exec (ExecutionError D) (Rows D × LimitExecutor S)
  limit_pull batch_size child none = e.next batch_size child >>= limit_rest none
  limit_pull batch_size child (some zero) = ok ([], record { child = child; remaining = some zero })
  limit_pull batch_size child (some (suc n)) =
      e.next (smaller batch_size (suc n)) child >>= limit_rest (some (suc n))

  unfoldable pub limit_next :
      ℕ → LimitExecutor S → Exec (ExecutionError D) (Rows D × LimitExecutor S)
  limit_next batch_size s = limit_pull batch_size s.child s.remaining

  unfoldable pub filter_init : FilterExecutor D S → Exec (ExecutionError D) (FilterExecutor D S)
  filter_init s = do child ← e.init s.child; ok (record s { child = child })

module _ {D : Type 0} ⦃f : Floats D⦄ where
  -- The rows of a batch, with their expressions evaluated.
  abbrev pub evaluate_all :
      List (PlannedExpression D) → List (Value D) → Exec (ExecutionError D) (List (Value D))
  evaluate_all [] row = ok []
  evaluate_all (x ∷ xs) row = do
    v ← evaluate_expression x row
    vs ← evaluate_all xs row
    ok (v ∷ vs)

  abbrev pub project_batch : List (PlannedExpression D) → Rows D → Exec (ExecutionError D) (Rows D)
  project_batch expressions [] = ok []
  project_batch expressions (row ∷ rows) = do
    values ← evaluate_all expressions row.values
    rest ← project_batch expressions rows
    ok (record { rid = none; values = values } ∷ rest)

  -- The rows of `ValuesPlan`, from constants.
  abbrev pub build_rows : List (List (PlannedExpression D)) → Exec (ExecutionError D) (Rows D)
  build_rows [] = ok []
  build_rows (row ∷ rows) = do
    values ← evaluate_all row (empty_row.values)
    rest ← build_rows rows
    ok (record { rid = none; values = values } ∷ rest)

  -- The state is `next_row_idx`; a slice whose ends are in the wrong order panics.
  unfoldable pub values_next :
      List (List (PlannedExpression D)) → ℕ → ℕ → Exec (ExecutionError D) (Rows D × ℕ)
  values_next plan_rows batch_size next_row_idx =
      or_panic (add_usize next_row_idx batch_size) >>= λ sum.
      let end = smaller sum (length plan_rows) in
      if leb next_row_idx end
      then (build_rows (take (end - next_row_idx) (drop next_row_idx plan_rows)) >>= λ rows.
          ok (rows, end))
      else panic

  -- `while let Some(row) = self.buffered_rows.next()`: whether the batch is full, the batch, and
  -- the rows left.
  unfoldable pub filter_drain :
      PlannedExpression D → ℕ → Rows D → Rows D → Exec (ExecutionError D) (Bool × Rows D × Rows D)
  filter_drain predicate batch_size out [] = ok (false, out, [])
  filter_drain predicate batch_size out (row ∷ rows) =
      filter_keep_row predicate row.values >>= λ kept.
      let out' = out ++ row ∷ [] in
      let more = filter_drain predicate batch_size out' rows in
      let skip = filter_drain predicate batch_size out rows in
      if kept then if length out' == batch_size then ok (true, out', rows) else more else skip

module _ {D S : Type 0} ⦃f : Floats D⦄ (e : Executor D S) where
  unfoldable pub projection_next :
      List (PlannedExpression D) → ℕ → S → Exec (ExecutionError D) (Rows D × S)
  projection_next expressions batch_size s = e.next batch_size s >>= λ (batch, s').
      project_batch expressions batch >>= λ rows. ok (rows, s')

module _ {D S : Type 0} ⦃f : Floats D⦄ where
  -- `loop`. One pass takes a batch of the child; `none` is the end of the fuel.
  unfoldable pub filter_loop :
      Executor D S
      → ℕ
      → PlannedExpression D
      → ℕ
      → Rows D
      → FilterExecutor D S
      → Exec (ExecutionError D) (Option (Rows D × FilterExecutor D S))
  filter_loop e zero predicate batch_size out s = ok none
  filter_loop e (suc fuel) predicate batch_size out s =
      filter_drain predicate batch_size out s.buffered_rows >>= λ (full, out₁, rows).
      if full
      then ok (some (out₁, record s { buffered_rows = rows }))
      else (e.next batch_size s.child >>= λ (batch, child).
          if length batch == 0
          then ok (some (out₁, record { child = child; buffered_rows = [] }))
          else (filter_drain predicate batch_size out₁ batch >>= λ (full', out₂, rows').
              let t : FilterExecutor D S = record { child = child; buffered_rows = rows' } in
              let again = filter_loop e fuel predicate batch_size out₂ t in
              if full' then ok (some (out₂, t)) else again))
