-- ===== src/BTree/Leaf/Search.antt =====
-- The binary search of src/storage/page/b_tree_leaf_page.rs.
use oxtub.Base.{
  ℕ, zero, suc, ◌+◌, ◌-◌, ◌/◌, ◌≤◌, ◌<◌, ◌≡◌, Bool, true, false, some, ltb, arith, Bool-cases, inl,
  inr,
}
use oxtub.BTree.Leaf.Defs.{lower_bound_loop, lower_bound_by}

-- The slots that compare less come first.
abbrev pub Partitioned : (ℕ → Bool) → ℕ → Type 0
Partitioned less size = (i j : ℕ) → i ≤ j → j < size → less j ≡ true → less i ≡ true

-- `pos` is the first slot that does not compare less.
pub record IsBound (less : ℕ → Bool) (size pos : ℕ) : Type 0 where
  pub inside : pos ≤ size
  pub before : (i : ℕ) → i < pos → less i ≡ true
  pub from : (i : ℕ) → pos ≤ i → i < size → less i ≡ false

lower_bound_loop-IsBound :
    (less : ℕ → Bool) (size fuel left right : ℕ)
    → Partitioned less size
    → left ≤ right
    → right ≤ size
    → right ≤ left + fuel
    → ((i : ℕ) → i < left → less i ≡ true)
    → ((i : ℕ) → right ≤ i → i < size → less i ≡ false)
    → (pos : ℕ) × (lower_bound_loop less fuel left right ≡ some pos) × IsBound less size pos
unfolding lower_bound_loop
lower_bound_loop-IsBound less size zero left right part a b c before from = (
  left,
  ground arith,
  record { inside = omega arith; before = before; from = λ i p q. from i (omega arith) q },
)
lower_bound_loop-IsBound less size (suc fuel) left right part a b c before from =
    elim (Bool-cases (ltb left right)) [
      | inr done ↦ (
        left,
        rw done,
        record { inside = omega arith; before = before; from = λ i p q. from i (ground arith) q },
      )
      | inl more ↦
          let mid = left + (right - left) / 2 in
          elim (Bool-cases (less mid)) [
            | inl low ↦
                let (pos, e, bound) =
                  lower_bound_loop-IsBound less size fuel (mid + 1) right part (ground arith) b
                    (ground arith) (λ i p. part i mid (omega arith) (ground arith) low) from in
                (pos, rw (more, low) e, bound)
            | inr high ↦
                let (pos, e, bound) =
                  lower_bound_loop-IsBound less size fuel left mid part (ground arith)
                    (ground arith) (ground arith) before (λ i p q. not_less i mid p q high) in
                (pos, rw (more, high) e, bound)
          ]
    ]
  where
    not_less : (i mid : ℕ) → mid ≤ i → i < size → less mid ≡ false → less i ≡ false
    not_less i mid p q high = elim (Bool-cases (less i)) [
      | inl on ↦ absurd (cc (part mid i p q on))
      | inr off ↦ off
    ]

-- On slots where those that compare less come first, `lower_bound_by` returns, with a fuel of the
-- number of slots, and finds the first one that does not compare less.
pub lower_bound_by-IsBound :
    (less : ℕ → Bool) (size : ℕ)
    → Partitioned less size
    → (pos : ℕ) × (lower_bound_by less size ≡ some pos) × IsBound less size pos
unfolding lower_bound_by
lower_bound_by-IsBound less size part =
    lower_bound_loop-IsBound less size size 0 size part (omega arith) (omega arith) (omega arith)
      (λ i p. absurd (omega arith)) (λ i p q. absurd (omega arith))
