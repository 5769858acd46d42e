-- ===== src/Query/Eval/Join.antt =====
-- The two evaluators of src/query/executor/expression.rs agree.
use oxtub.Base.{
  ℕ, zero, suc, ◌+◌, ◌<◌, ◌≡◌, refl, ap, sym, ◌∙◌, List, [], ◌∷◌, ◌++◌, length, get_elem?, arith,
  or_panic,
}
use oxtub.Query.Eval.Defs.{evaluate_expression, evaluate_join_expression, join_column}
use oxtub.Query.Expression.{
  PlannedExpression, ExpressionType, column_value, constant_value, comparison, arithmetic, logic,
  not_of, negate, null_check,
}
use oxtub.Value.{Floats, Value}

-- The expression over the joined row, whose left part has `n` columns.
abbrev pub joined_column : {D : Type 0} → ExpressionType → ℕ → ℕ → ℕ → PlannedExpression D
joined_column rt n (suc zero) i = column_value rt 0 (n + i)
joined_column rt n zero i = column_value rt 0 i
joined_column rt n (suc (suc k)) i = column_value rt (suc (suc k)) i

pub on_joined : {D : Type 0} → ℕ → PlannedExpression D → PlannedExpression D
on_joined n (column_value rt k i) = joined_column rt n k i
on_joined n (constant_value rt v) = constant_value rt v
on_joined n (comparison rt l o r) = comparison rt (on_joined n l) o (on_joined n r)
on_joined n (arithmetic rt l o r) = arithmetic rt (on_joined n l) o (on_joined n r)
on_joined n (logic rt l o r) = logic rt (on_joined n l) o (on_joined n r)
on_joined n (not_of rt e) = not_of rt (on_joined n e)
on_joined n (negate rt e) = negate rt (on_joined n e)
on_joined n (null_check rt e o) = null_check rt (on_joined n e) o

abbrev pub LeftColumn : ℕ → ℕ → ℕ → Type 0
LeftColumn n zero i = i < n
LeftColumn n (suc k) i = Unit

-- The columns that the expression takes from the left row are there.
abbrev pub LeftColumns : {D : Type 0} → ℕ → PlannedExpression D → Type 0
LeftColumns n (column_value rt k i) = LeftColumn n k i
LeftColumns n (constant_value rt v) = Unit
LeftColumns n (comparison rt l o r) = LeftColumns n l × LeftColumns n r
LeftColumns n (arithmetic rt l o r) = LeftColumns n l × LeftColumns n r
LeftColumns n (logic rt l o r) = LeftColumns n l × LeftColumns n r
LeftColumns n (not_of rt e) = LeftColumns n e
LeftColumns n (negate rt e) = LeftColumns n e
LeftColumns n (null_check rt e o) = LeftColumns n e

get_elem?-append_left :
    {A : Type 0} (xs ys : List A) (i : ℕ) → i < length xs → get_elem? (xs ++ ys) i ≡ get_elem? xs i
get_elem?-append_left [] ys i h = absurd (omega arith)
get_elem?-append_left (x ∷ xs) ys zero h = refl
get_elem?-append_left (x ∷ xs) ys (suc i) h = get_elem?-append_left xs ys i (omega arith)

get_elem?-append_right :
    {A : Type 0} (xs ys : List A) (i : ℕ) → get_elem? (xs ++ ys) (length xs + i) ≡ get_elem? ys i
get_elem?-append_right [] ys i = ap (get_elem? ys) (omega arith)
get_elem?-append_right (x ∷ xs) ys i =
    ap (get_elem? (x ∷ xs ++ ys)) (suc_plus (length xs)) ∙ get_elem?-append_right xs ys i
  where
    suc_plus : (n : ℕ) → suc n + i ≡ suc (n + i)
    suc_plus n = omega arith

module _ {D : Type 0} ⦃f : Floats D⦄ where
  column-joined :
      (rt : ExpressionType) (k i : ℕ) (left right : List (Value D))
      → LeftColumn (length left) k i
      → evaluate_expression (joined_column rt (length left) k i) (left ++ right)
        ≡ join_column k i left right
  unfolding evaluate_expression
  column-joined rt zero i left right h = ap or_panic (get_elem?-append_left left right i h)
  column-joined rt (suc zero) i left right h = ap or_panic (get_elem?-append_right left right i)
  column-joined rt (suc (suc k)) i left right h = ground arith

  -- An expression over two rows, whose left columns are in the left row, evaluates as the same
  -- expression, with its right columns moved behind the left ones, does over the joined row.
  pub evaluate_join_expression-joined :
      (left right : List (Value D)) (e : PlannedExpression D)
      → LeftColumns (length left) e
      → evaluate_join_expression e left right
        ≡ evaluate_expression (on_joined (length left) e) (left ++ right)
  unfolding on_joined evaluate_join_expression evaluate_expression
  evaluate_join_expression-joined left right (column_value rt k i) h =
      sym (column-joined rt k i left right h)
  evaluate_join_expression-joined left right (constant_value rt v) h = refl
  evaluate_join_expression-joined left right (comparison rt l o r) h =
      rw (evaluate_join_expression-joined left right l h.0)
        (rw (evaluate_join_expression-joined left right r h.1) refl)
  evaluate_join_expression-joined left right (arithmetic rt l o r) h =
      rw (evaluate_join_expression-joined left right l h.0)
        (rw (evaluate_join_expression-joined left right r h.1) refl)
  evaluate_join_expression-joined left right (logic rt l o r) h =
      rw (evaluate_join_expression-joined left right l h.0)
        (rw (evaluate_join_expression-joined left right r h.1) refl)
  evaluate_join_expression-joined left right (not_of rt e) h =
      rw (evaluate_join_expression-joined left right e h) refl
  evaluate_join_expression-joined left right (negate rt e) h =
      rw (evaluate_join_expression-joined left right e h) refl
  evaluate_join_expression-joined left right (null_check rt e o) h =
      rw (evaluate_join_expression-joined left right e h) refl
