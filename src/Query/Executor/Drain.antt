-- ===== src/Query/Executor/Drain.antt =====
-- One pass of src/query/executor/filter.rs over buffered rows.
use oxtub.Base.{
  ℕ, ◌<◌, ◌≡◌, refl, ap, sym, ◌∙◌, Bool, true, false, List, [], ◌∷◌, ◌++◌, length, ◌==◌,
  if◌then◌else◌, ok, arith, length-append, All, Bool-cases, inl, inr,
}
use mathlib.Core.List.{append_assoc}
use oxtub.Query.Eval.Defs.{filter_keep_row}
use oxtub.Query.Executor.Defs.{ExecutorRow, Rows, filter_drain}
use oxtub.Query.Expression.{PlannedExpression}
use oxtub.Value.{Floats}

-- The rows that are kept.
abbrev pub kept : {A : Type 0} → (A → Bool) → List A → List A
kept keeps [] = []
kept keeps (x ∷ xs) = let rest = kept keeps xs in if keeps x then x ∷ rest else rest

kept-append :
    {A : Type 0} (keeps : A → Bool) (xs ys : List A)
    → kept keeps (xs ++ ys) ≡ kept keeps xs ++ kept keeps ys
kept-append keeps [] ys = refl
kept-append keeps (x ∷ xs) ys = ground (arith, kept-append keeps xs ys)

pub carry :
    {A : Type 0} (keeps : A → Bool) (out out' rows rest ys : List A)
    → out' ++ kept keeps rest ≡ out ++ kept keeps rows
    → out ++ kept keeps (rows ++ ys) ≡ out' ++ kept keeps (rest ++ ys)
carry keeps out out' rows rest ys h =
    ap (λ x. out ++ x) (kept-append keeps rows ys)
    ∙ sym (append_assoc out (kept keeps rows) (kept keeps ys))
    ∙ ap (λ x. x ++ kept keeps ys) (sym h)
    ∙ append_assoc out' (kept keeps rest) (kept keeps ys)
    ∙ ap (λ x. out' ++ x) (sym (kept-append keeps rest ys))

pub empty-length : {A : Type 0} (xs : List A) → length xs ≡ 0 → xs ≡ []
empty-length [] h = refl
empty-length (x ∷ xs) h = absurd (omega arith)

pub All-left : {A : Type 0} (P : A → Type 0) (xs ys : List A) → All P (xs ++ ys) → All P xs
All-left P [] ys h = tt
All-left P (x ∷ xs) ys h = (h.0, All-left P xs ys h.1)

pub All-right : {A : Type 0} (P : A → Type 0) (xs ys : List A) → All P (xs ++ ys) → All P ys
All-right P [] ys h = h
All-right P (x ∷ xs) ys h = All-right P xs ys h.1

module _ {D : Type 0} ⦃f : Floats D⦄ where
  -- The predicate evaluates on each of the rows, to what `keeps` says.
  abbrev pub Agrees : PlannedExpression D → (ExecutorRow D → Bool) → Rows D → Type 0
  Agrees p keeps rows = All (λ row. filter_keep_row p row.values ≡ ok (keeps row)) rows

  -- What a pass over buffered rows leaves.
  pub record Drained (p : PlannedExpression D) (keeps : ExecutorRow D → Bool) (n : ℕ)
      (out rows : Rows D) (full : Bool) (out' rest : Rows D) : Type 0 where
    pub same : out' ++ kept keeps rest ≡ out ++ kept keeps rows
    pub agrees : Agrees p keeps rest
    pub filled : full ≡ true → length out' ≡ n
    pub unfilled : full ≡ false → (rest ≡ []) × (length out' < n)

  drain_skip :
      (p : PlannedExpression D) (n : ℕ) (out : Rows D) (row : ExecutorRow D) (rows : Rows D)
      → filter_keep_row p row.values ≡ ok false
      → filter_drain p n out (row ∷ rows) ≡ filter_drain p n out rows
  unfolding filter_drain
  drain_skip p n out row rows e = rw e refl

  drain_more :
      (p : PlannedExpression D) (n : ℕ) (out : Rows D) (row : ExecutorRow D) (rows : Rows D)
      → filter_keep_row p row.values ≡ ok true
      → (length (out ++ row ∷ []) == n) ≡ false
      → filter_drain p n out (row ∷ rows) ≡ filter_drain p n (out ++ row ∷ []) rows
  unfolding filter_drain
  drain_more p n out row rows e h = rw e (rw h refl)

  drain_full :
      (p : PlannedExpression D) (n : ℕ) (out : Rows D) (row : ExecutorRow D) (rows : Rows D)
      → filter_keep_row p row.values ≡ ok true
      → (length (out ++ row ∷ []) == n) ≡ true
      → filter_drain p n out (row ∷ rows) ≡ ok (true, out ++ row ∷ [], rows)
  unfolding filter_drain
  drain_full p n out row rows e h = rw e (rw h refl)

  pub filter_drain-Drained :
      (p : PlannedExpression D) (keeps : ExecutorRow D → Bool) (n : ℕ) (out rows : Rows D)
      → Agrees p keeps rows
      → length out < n
      → (full : Bool) × (out' : Rows D) × (rest : Rows D) × (filter_drain p n out rows
          ≡ ok (full, out', rest))
        × Drained p keeps n out rows full out' rest
  unfolding filter_drain
  filter_drain-Drained p keeps n out [] a h = (
    false,
    out,
    [],
    refl,
    record { same = refl; agrees = tt; filled = λ e. absurd (cc e); unfilled = λ _. (refl, h) },
  )
  filter_drain-Drained p keeps n out (row ∷ rows) a h = elim (Bool-cases (keeps row)) [
    | inr off ↦
        let (full, out', rest, e, d) = filter_drain-Drained p keeps n out rows a.1 h in
        (
          full,
          out',
          rest,
          drain_skip p n out row rows (a.0 ∙ ap ok off) ∙ e,
          record {
            same = rw off d.same;
            agrees = d.agrees;
            filled = d.filled;
            unfilled = d.unfilled;
          },
        )
    | inl on ↦ elim (Bool-cases (length (out ++ row ∷ []) == n)) [
      | inl full ↦ (
        true,
        out ++ row ∷ [],
        rows,
        drain_full p n out row rows (a.0 ∙ ap ok on) full,
        record {
          same = rw on (append_assoc out (row ∷ []) (kept keeps rows));
          agrees = a.1;
          filled = λ _. ground arith;
          unfilled = λ e. absurd (cc e);
        },
      )
      | inr more ↦
          let (full, out', rest, e, d) =
            filter_drain-Drained p keeps n (out ++ row ∷ []) rows a.1
              (ground (arith, length-append out (row ∷ []))) in
          (
            full,
            out',
            rest,
            drain_more p n out row rows (a.0 ∙ ap ok on) more ∙ e,
            record {
              same = rw on (d.same ∙ append_assoc out (row ∷ []) (kept keeps rows));
              agrees = d.agrees;
              filled = d.filled;
              unfilled = d.unfilled;
            },
          )
    ]
  ]
