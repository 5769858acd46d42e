-- ===== src/Query/Executor/Streams.antt =====
-- Executors as streams of rows: each call of `next` returns the first rows that are left.
use oxtub.Base.{
  ℕ, zero, suc, ◌-◌, ◌≤◌, ◌<◌, ◌≡◌, refl, ap, ◌∙◌, Option, none, some, List, [], ◌∷◌, ◌++◌, length,
  take, Exec, ok, ◌>>=◌, or_panic, sub_usize-some, arith,
}
use oxtub.Query.Executor.Defs.{
  Rows, Executor, LimitExecutor, limit_next, limit_pull, limit_rest, smaller,
}
use oxtub.Query.Expression.{ExecutionError}

module _ {D S : Type 0} where
  -- A call returns the first rows of those left, at most `n` and none only at the end.
  pub record Pulls (n : ℕ) (left : S → Rows D) (Good : S → Type 0) (rows : Rows D)
      (r : Exec (ExecutionError D) (Rows D × S)) : Type 0 where
    pub out : Rows D
    pub rest : S
    pub returns : r ≡ ok (out, rest)
    pub parts : rows ≡ out ++ left rest
    pub bounded : length out ≤ n
    pub ends : length out ≡ 0 → rows ≡ []
    pub good : Good rest

  -- `left` is the rows that are left in a state, and `Good` holds between calls.
  abbrev pub IsStream : Executor D S → (S → Rows D) → (S → Type 0) → Type 0
  IsStream e left Good = (n : ℕ) (s : S) → 0 < n → Good s → Pulls n left Good (left s) (e.next n s)

take-append :
    {A : Type 0} (n : ℕ) (xs ys : List A)
    → length xs ≤ n
    → take n (xs ++ ys) ≡ xs ++ take (n - length xs) ys
take-append n [] ys h = ap (λ k. take k ys) (omega arith)
take-append zero (x ∷ xs) ys h = absurd (omega arith)
take-append (suc n) (x ∷ xs) ys h =
    ap (◌∷◌ x) (take-append n xs ys (omega arith) ∙ ap (λ k. xs ++ take k ys) (omega arith))

take-nil : {A : Type 0} (n : ℕ) → take {A = A} n [] ≡ []
take-nil zero = refl
take-nil (suc n) = refl

abbrev pub limited : {D : Type 0} → Option ℕ → Rows D → Rows D
limited none rows = rows
limited (some k) rows = take k rows

module _ {D S : Type 0} (e : Executor D S) where
  -- The rows left in a limit.
  abbrev pub limit_left : (S → Rows D) → LimitExecutor S → Rows D
  limit_left left s = limited s.remaining (left s.child)

  -- Over a child that is a stream, a call of `LimitExecutor::next` for at least one row succeeds and
  -- returns the first rows left, at most as many as asked for and none only at the end: the rows left
  -- in a limit are those of the child, cut at the count that remains.
  pub limit_next-Pulls :
      (left : S → Rows D) (Good : S → Type 0)
      → IsStream e left Good
      → (n : ℕ) (s : LimitExecutor S) → 0 < n
      → Good s.child
      → Pulls n (limit_left left) (λ t. Good t.child) (limit_left left s) (limit_next e n s)
  unfolding limit_next
  limit_next-Pulls left Good stream n s h g = go s.remaining
    where
      go :
          (remaining : Option ℕ)
          → Pulls n
              (limit_left left)
              (λ t. Good t.child)
              (limited remaining (left s.child))
              (limit_pull e n s.child remaining)
      go none =
          let p = stream n s.child h g in
          record {
            out = p.out;
            rest = record { child = p.rest; remaining = none };
            returns = ap (λ r. r >>= limit_rest none) p.returns;
            parts = p.parts;
            bounded = p.bounded;
            ends = p.ends;
            good = p.good;
          }
      go (some zero) = record {
        out = [];
        rest = record { child = s.child; remaining = some zero };
        returns = refl;
        parts = refl;
        bounded = omega arith;
        ends = λ _. refl;
        good = g;
      }
      go (some (suc k)) =
          let p = stream (smaller n (suc k)) s.child (ground arith) g in
          let small : length p.out ≤ suc k = ground (arith, p.bounded) in
          record {
            out = p.out;
            rest = record { child = p.rest; remaining = some (suc k - length p.out) };
            returns =
                ap (λ r. r >>= limit_rest (some (suc k))) p.returns
                ∙ ap
                    (λ r.
                      or_panic r >>= λ x. ok (p.out, record { child = p.rest; remaining = some x }))
                    (sub_usize-some (suc k) (length p.out) small);
            parts = ap (take (suc k)) p.parts ∙ take-append (suc k) p.out (left p.rest) small;
            bounded = ground (arith, p.bounded);
            ends = λ z. ap (take (suc k)) (p.ends z);
            good = p.good;
          }
