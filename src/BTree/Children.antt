-- ===== src/BTree/Children.antt =====
-- The child search of src/storage/page/b_tree_internal_page.rs.
use oxtub.Base.{
  ℕ, zero, suc, ◌+◌, ◌-◌, ◌/◌, ◌≤◌, ◌<◌, ◌≡◌, ap, Bool, true, false, some, ltb, length, arith,
  Bool-cases, inl, inr,
}
use oxtub.BTree.Internal.{
  InternalPage, child_loop, find_child_idx, find_child_idx_for_insert, separator_key_lt,
  separator_le,
}
use oxtub.BTree.Keys.{KeyComparator, Rid}

-- Among the separators, which start at slot 1, those that send a search to the right come first.
abbrev pub Ordered : (ℕ → Bool) → ℕ → Type 0
Ordered goes_right size =
    (i j : ℕ) → 0 < i → i ≤ j → j < size → goes_right j ≡ true → goes_right i ≡ true

-- `idx` is the last slot to which the separators send the search.
pub record IsChild (goes_right : ℕ → Bool) (size idx : ℕ) : Type 0 where
  pub inside : idx < size
  pub before : (i : ℕ) → 0 < i → i ≤ idx → goes_right i ≡ true
  pub behind : (i : ℕ) → idx < i → i < size → goes_right i ≡ false

child_loop-IsChild :
    (goes_right : ℕ → Bool) (size fuel left right : ℕ)
    → Ordered goes_right size
    → left < right
    → right ≤ size
    → right ≤ left + fuel + 1
    → ((i : ℕ) → 0 < i → i ≤ left → goes_right i ≡ true)
    → ((i : ℕ) → right ≤ i → i < size → goes_right i ≡ false)
    → (idx : ℕ) × (child_loop goes_right fuel left right ≡ some (idx, idx + 1))
      × IsChild goes_right size idx
unfolding child_loop
child_loop-IsChild goes_right size zero left right part less most enough before behind =
    let ends : right ≡ left + 1 = omega arith in
    (
      left,
      ground arith,
      record { inside = omega arith; before = before; behind = λ i p q. behind i (omega arith) q },
    )
child_loop-IsChild goes_right size (suc fuel) left right part less most enough before behind =
    elim (Bool-cases (ltb 1 (right - left))) [
      | inr done ↦
          let ends : right ≡ left + 1 = ground arith in
          (
            left,
            rw done (ap (λ r. some (left, r)) ends),
            record {
              inside = omega arith;
              before = before;
              behind = λ i p q. behind i (omega arith) q;
            },
          )
      | inl more ↦
          let mid = left + (right - left) / 2 in
          let wide : 1 < right - left = ground arith in
          elim (Bool-cases (goes_right mid)) [
            | inl up ↦
                let (idx, e, found) =
                  child_loop-IsChild goes_right size fuel mid right part (omega arith) most
                    (omega arith) (λ i p q. part i mid p q (omega arith) up) behind in
                (idx, rw (more, up) e, found)
            | inr down ↦
                let (idx, e, found) =
                  child_loop-IsChild goes_right size fuel left mid part (omega arith) (omega arith)
                    (omega arith) before (λ i p q. not_right i mid (omega arith) p q down) in
                (idx, rw (more, down) e, found)
          ]
    ]
  where
    not_right :
        (i mid : ℕ) → 0 < mid → mid ≤ i → i < size → goes_right mid ≡ false → goes_right i ≡ false
    not_right i mid z p q down = elim (Bool-cases (goes_right i)) [
      | inl on ↦ absurd (cc (part mid i z p q on))
      | inr off ↦ off
    ]

module _ {K : Type 0} where
  -- On a page with a child whose separators are in order, both searches return, and each finds the
  -- last slot that the separators send it to: by the key alone, the separators up to it are less
  -- than the key and those behind are not; by the full key, those up to it are at most the key and
  -- those behind are greater.
  pub find_child_idx-IsChild :
      (c : KeyComparator K) (p : InternalPage K) (key : K) (rid : Rid)
      → 0 < length p.slots
      → Ordered (separator_key_lt c key p.slots) (length p.slots)
      → Ordered (separator_le c (key, rid) p.slots) (length p.slots)
      → ((idx : ℕ) × (find_child_idx c p key ≡ some idx)
          × IsChild (separator_key_lt c key p.slots) (length p.slots) idx)
        × ((idx : ℕ) × (find_child_idx_for_insert c p key rid ≡ some idx)
            × IsChild (separator_le c (key, rid) p.slots) (length p.slots) idx)
  unfolding find_child_idx find_child_idx_for_insert
  find_child_idx-IsChild c p key rid some_child by_key by_entry =
      let size = length p.slots in
      let there : ltb 0 size ≡ true = ground arith in
      let (a, ea, fa) =
        child_loop-IsChild (separator_key_lt c key p.slots) size size 0 size by_key some_child
          (omega arith) (omega arith) (λ i p q. absurd (omega arith))
          (λ i p q. absurd (omega arith)) in
      let (b, eb, fb) =
        child_loop-IsChild (separator_le c (key, rid) p.slots) size size 0 size by_entry some_child
          (omega arith) (omega arith) (λ i p q. absurd (omega arith))
          (λ i p q. absurd (omega arith)) in
      let back : a + 1 - 1 ≡ a = omega arith in
      ((a, simp (there, ea, back), fa), (b, simp (there, eb), fb))
