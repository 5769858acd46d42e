-- ===== src/Query/Executor/Filtering.antt =====
-- src/query/executor/filter.rs over a child that is a stream.
use oxtub.Base.{
  ℕ, zero, suc, ◌≤◌, ◌<◌, ◌≡◌, refl, ap, sym, ◌∙◌, subst, Bool, true, false, some, [], ◌++◌, length,
  ◌==◌, ok, arith, length-append, All, All-append, Bool-cases, inl, inr,
}
use oxtub.Query.Eval.Defs.{filter_keep_row}
use oxtub.Query.Executor.Defs.{
  ExecutorRow, Rows, Executor, FilterExecutor, filter_drain, filter_loop,
}
use oxtub.Query.Executor.Drain.{
  kept, carry, empty-length, All-left, All-right, Agrees, filter_drain-Drained,
}
use oxtub.Query.Executor.Streams.{IsStream}
use oxtub.Query.Expression.{PlannedExpression}
use oxtub.Value.{Floats}

module _ {D S : Type 0} ⦃f : Floats D⦄ (e : Executor D S) (left : S → Rows D) (Good : S → Type 0)
    (p : PlannedExpression D) (keeps : ExecutorRow D → Bool) where
  -- The rows that a filter has yet to test.
  abbrev pub untested : FilterExecutor D S → Rows D
  untested s = s.buffered_rows ++ left s.child

  -- A call that returns `out` in the state `t`.
  pub record Filtered (n : ℕ) (out₀ : Rows D) (s : FilterExecutor D S) (out : Rows D)
      (t : FilterExecutor D S) : Type 0 where
    pub same : out₀ ++ kept keeps (untested s) ≡ out ++ kept keeps (untested t)
    pub bounded : length out ≤ n
    pub short : length out < n → untested t ≡ []
    pub good : Good t.child
    pub agrees : Agrees p keeps (untested t)

  abbrev Filters : ℕ → ℕ → Rows D → FilterExecutor D S → Type 0
  Filters fuel n out₀ s =
      (out : Rows D) × (t : FilterExecutor D S) × (filter_loop e fuel p n out₀ s
        ≡ ok (some (out, t)))
      × Filtered n out₀ s out t

  loop_full :
      (fuel n : ℕ) (out₀ out₁ rest : Rows D) (s : FilterExecutor D S)
      → filter_drain p n out₀ s.buffered_rows ≡ ok (true, out₁, rest)
      → filter_loop e (suc fuel) p n out₀ s
        ≡ ok (some (out₁, record { child = s.child; buffered_rows = rest }))
  unfolding filter_loop
  loop_full fuel n out₀ out₁ rest s h = rw h refl

  loop_end :
      (fuel n : ℕ) (out₀ out₁ rest batch : Rows D) (s : FilterExecutor D S) (c : S)
      → filter_drain p n out₀ s.buffered_rows ≡ ok (false, out₁, rest)
      → e.next n s.child ≡ ok (batch, c)
      → (length batch == 0) ≡ true
      → filter_loop e (suc fuel) p n out₀ s
        ≡ ok (some (out₁, record { child = c; buffered_rows = [] }))
  unfolding filter_loop
  loop_end fuel n out₀ out₁ rest batch s c h k z = simp (h, k, z)

  loop_filled :
      (fuel n : ℕ) (out₀ out₁ out₂ rest batch rest' : Rows D) (s : FilterExecutor D S) (c : S)
      → filter_drain p n out₀ s.buffered_rows ≡ ok (false, out₁, rest)
      → e.next n s.child ≡ ok (batch, c)
      → (length batch == 0) ≡ false
      → filter_drain p n out₁ batch ≡ ok (true, out₂, rest')
      → filter_loop e (suc fuel) p n out₀ s
        ≡ ok (some (out₂, record { child = c; buffered_rows = rest' }))
  unfolding filter_loop
  loop_filled fuel n out₀ out₁ out₂ rest batch rest' s c h k z h' = simp (h, k, z, h')

  loop_again :
      (fuel n : ℕ) (out₀ out₁ out₂ rest batch rest' : Rows D) (s : FilterExecutor D S) (c : S)
      → filter_drain p n out₀ s.buffered_rows ≡ ok (false, out₁, rest)
      → e.next n s.child ≡ ok (batch, c)
      → (length batch == 0) ≡ false
      → filter_drain p n out₁ batch ≡ ok (false, out₂, rest')
      → filter_loop e (suc fuel) p n out₀ s
        ≡ filter_loop e fuel p n out₂ (record { child = c; buffered_rows = rest' })
  unfolding filter_loop
  loop_again fuel n out₀ out₁ out₂ rest batch rest' s c h k z h' = simp (h, k, z, h')

  -- The state after a full batch.
  stopped :
      (n : ℕ) (out₀ out₁ rest : Rows D) (s : FilterExecutor D S) (c : S)
      → out₀ ++ kept keeps (untested s) ≡ out₁ ++ kept keeps (rest ++ left c)
      → length out₁ ≡ n
      → Good c
      → Agrees p keeps (rest ++ left c)
      → Filtered n out₀ s out₁ (record { child = c; buffered_rows = rest })
  stopped n out₀ out₁ rest s c same size g a = record {
    same = same;
    bounded = omega arith;
    short = λ h. absurd (omega arith);
    good = g;
    agrees = a;
  }

  filter_runs :
      IsStream e left Good
      → (fuel n : ℕ) (out₀ : Rows D) (s : FilterExecutor D S) → length (left s.child) < fuel
      → length out₀ < n
      → Good s.child
      → Agrees p keeps (untested s)
      → Filters fuel n out₀ s
  filter_runs stream zero n out₀ s enough room g a = absurd (omega arith)
  filter_runs stream (suc fuel) n out₀ s enough room g a =
      let P : ExecutorRow D → Type 0 = λ row. filter_keep_row p row.values ≡ ok (keeps row) in
      let after = All-right P s.buffered_rows (left s.child) a in
      let (full, out₁, rest, e₁, d) =
        filter_drain-Drained p keeps n out₀ s.buffered_rows
          (All-left P s.buffered_rows (left s.child) a) room in
      let moved = carry keeps out₀ out₁ s.buffered_rows rest (left s.child) d.same in
      elim (Bool-cases full) [
        | inl on ↦ (
          out₁,
          record { child = s.child; buffered_rows = rest },
          loop_full fuel n out₀ out₁ rest s (e₁ ∙ ap (λ b. ok (b, out₁, rest)) on),
          stopped n out₀ out₁ rest s s.child moved (d.filled on) g
              (All-append P rest (left s.child) d.agrees after),
        )
        | inr off ↦
            let (none_left, size) = d.unfilled off in
            let e₁' = e₁ ∙ ap (λ b. ok (b, out₁, rest)) off in
            let b = stream n s.child (omega arith) g in
            let pulled =
              moved
              ∙ ap (λ r. out₁ ++ kept keeps (r ++ left s.child)) none_left
              ∙ ap (λ r. out₁ ++ kept keeps r) b.parts in
            let later = subst (λ r. All P r) b.parts after in
            elim (Bool-cases (length b.out == 0)) [
              | inl z ↦
                  let gone = b.ends (ground arith) in
                  let over : left b.rest ≡ [] = empty-length (left b.rest) (
                    omega
                      (arith, ap length (sym b.parts ∙ gone), length-append b.out (left b.rest))) in
                  let nothing : b.out ≡ [] = empty-length b.out (ground arith) in
                  (
                    out₁,
                    record { child = b.rest; buffered_rows = [] },
                    loop_end fuel n out₀ out₁ rest b.out s b.rest e₁' b.returns z,
                    record {
                      same = pulled ∙ ap (λ r. out₁ ++ kept keeps (r ++ left b.rest)) nothing;
                      bounded = omega arith;
                      short = λ _. over;
                      good = b.good;
                      agrees = All-right P b.out (left b.rest) later;
                    },
                  )
              | inr more ↦
                  let (full', out₂, rest', e₂, d') =
                    filter_drain-Drained p keeps n out₁ b.out (All-left P b.out (left b.rest) later)
                      size in
                  let moved' = pulled ∙ carry keeps out₁ out₂ b.out rest' (left b.rest) d'.same in
                  let agree =
                    All-append P rest' (left b.rest) d'.agrees
                      (All-right P b.out (left b.rest) later) in
                  elim (Bool-cases full') [
                    | inl on ↦ (
                      out₂,
                      record { child = b.rest; buffered_rows = rest' },
                      loop_filled fuel n out₀ out₁ out₂ rest b.out rest' s b.rest e₁' b.returns more
                          (e₂ ∙ ap (λ b. ok (b, out₂, rest')) on),
                      stopped n out₀ out₂ rest' s b.rest moved' (d'.filled on) b.good agree,
                    )
                    | inr off' ↦
                        let t : FilterExecutor D S = record {
                          child = b.rest;
                          buffered_rows = rest';
                        } in
                        let fewer : length (left b.rest) < fuel =
                          ground (arith, ap length b.parts, length-append b.out (left b.rest)) in
                        let (out, u, runs, done) =
                          filter_runs stream fuel n out₂ t fewer (d'.unfilled off').1 b.good
                            agree in
                        (
                          out,
                          u,
                          loop_again fuel n out₀ out₁ out₂ rest b.out rest' s b.rest e₁' b.returns
                                more (e₂ ∙ ap (λ b. ok (b, out₂, rest')) off')
                              ∙ runs,
                          record {
                            same = moved' ∙ done.same;
                            bounded = done.bounded;
                            short = done.short;
                            good = done.good;
                            agrees = done.agrees;
                          },
                        )
                  ]
            ]
      ]

  -- Over a child that is a stream, with a predicate that evaluates on every row that is left, a call
  -- of `FilterExecutor::next` for `n` rows, at least one, ends within one pass more than the child has
  -- rows left: it returns the first of the rows that satisfy the predicate, at most `n`, and fewer
  -- only when no row is left to test.
  pub filter_loop-Filtered :
      IsStream e left Good
      → (fuel n : ℕ) (s : FilterExecutor D S) → length (left s.child) < fuel
      → 0 < n
      → Good s.child
      → Agrees p keeps (untested s)
      → (out : Rows D) × (t : FilterExecutor D S) × (filter_loop e fuel p n [] s
          ≡ ok (some (out, t)))
        × Filtered n [] s out t
  filter_loop-Filtered stream fuel n s enough h g a = filter_runs stream fuel n [] s enough h g a
