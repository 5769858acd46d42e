-- ===== src/BTree/Pair/Merge.antt =====
-- `merge_leaf_pair` of src/storage/index/b_tree.rs.
use oxtub.Base.{
  ℕ, zero, suc, ◌+◌, ◌-◌, ◌*◌, ◌≤◌, ◌<◌, ◌≡◌, refl, ◌∙◌, true, false, ◌&&◌, some, ltb, leb, ◌==◌,
  arith, Bool-cases, inl, inr, ◌⊎◌, length, ap₂, ◌++◌,
}
use oxtub.BTree.Internal
use oxtub.BTree.Internal.{InternalPage}
use oxtub.BTree.Leaf.Defs.{
  LeafPage, curr_size, get_tombstone_count, live_size, min_size, evict_oldest_tombstone,
  coalesce_right_into_page, remove_nth,
}
use oxtub.BTree.Leaf.Invariant.{LeafInv, tombstones_le_size}
use oxtub.BTree.Leaf.Live.{live, evict_oldest_tombstone-live}
use oxtub.BTree.Leaf.Moves.{coalesce_right_into_page-live}
use oxtub.BTree.Pair.Defs.{prune, merge_leaf_pair}

module _ {K : Type 0} where
  -- What the loop keeps, and where it stops.
  record Pruned (cap retained count : ℕ) (p : LeafPage K) (n : ℕ) (q : LeafPage K) : Type 0 where
    inv : LeafInv cap q
    same : live q ≡ live p
    counts : n + get_tombstone_count p ≡ count + get_tombstone_count q
    sizes : curr_size q + get_tombstone_count p ≡ curr_size p + get_tombstone_count q
    largest : q.max_size ≡ p.max_size
    stops : (n ≤ retained) ⊎ (get_tombstone_count q ≡ 0)
    keeps : retained ≤ count → retained ≤ n

  prune_stops :
      (retained count : ℕ) (p : LeafPage K)
      → (ltb retained (suc count) && ltb 0 (get_tombstone_count p)) ≡ false
      → prune retained (suc count) p ≡ some (suc count, p)
  unfolding prune
  prune_stops retained count p h = rw h

  prune_goes :
      (retained count t : ℕ) (p q : LeafPage K)
      → (ltb retained (suc count) && ltb 0 (get_tombstone_count p)) ≡ true
      → evict_oldest_tombstone p ≡ some (t, q)
      → prune retained (suc count) p ≡ prune retained count q
  unfolding prune
  prune_goes retained count t p q h e = simp (h, e)

  prune_runs :
      (cap retained count : ℕ) (p : LeafPage K)
      → LeafInv cap p
      → get_tombstone_count p ≤ count
      → (n : ℕ) × (q : LeafPage K) × (prune retained count p ≡ some (n, q))
        × Pruned cap retained count p n q
  unfolding prune
  prune_runs cap retained zero p v few = (
    0,
    p,
    refl,
    record {
      inv = v;
      same = refl;
      counts = refl;
      sizes = refl;
      largest = refl;
      stops = inl (omega arith);
      keeps = λ h. h;
    },
  )
  prune_runs cap retained (suc count) p v few =
      elim (Bool-cases (ltb retained (suc count) && ltb 0 (get_tombstone_count p))) [
        | inr h ↦ (
          suc count,
          p,
          prune_stops retained count p h,
          record {
            inv = v;
            same = refl;
            counts = refl;
            sizes = refl;
            largest = refl;
            stops = ground arith;
            keeps = λ r. r;
          },
        )
        | inl h ↦
            let (t, q, at, inv, same, size, tombs, largest) =
              evict_oldest_tombstone-live cap p v (ground arith) in
            let (n, r, runs, done) = prune_runs cap retained count q inv (omega arith) in
            (
              n,
              r,
              prune_goes retained count t p q h at ∙ runs,
              record {
                inv = done.inv;
                same = done.same ∙ same;
                counts = omega (arith, done.counts, tombs);
                sizes = omega (arith, done.sizes, size, tombs);
                largest = done.largest ∙ largest;
                stops = done.stops;
                keeps = λ _. done.keeps (ground arith);
              },
            )
      ]

  merge_steps :
      (cap : ℕ) (parent : InternalPage K) (left right left' right' merged : LeafPage K)
      (right_idx n m : ℕ)
      → let live_total = live_size left + live_size right in
        let retained = min_size left - live_total in
        live_total ≤ left.max_size
        → prune retained (get_tombstone_count left + get_tombstone_count right) left
          ≡ some (n, left')
        → prune retained n right ≡ some (m, right')
        → m ≡ retained
        → coalesce_right_into_page cap left' right' ≡ some merged
        → min_size merged ≤ curr_size merged
        → right_idx < length parent.slots
        → merge_leaf_pair cap parent left right right_idx
          ≡ some (
            record parent { slots = remove_nth right_idx parent.slots },
            record merged { next_page_id = right'.next_page_id },
          )
  unfolding merge_leaf_pair Internal.remove_at
  merge_steps cap parent left right left' right' merged right_idx n m small first second e joined
        big inside =
      let c₁ : leb (live_size left + live_size right) left.max_size ≡ true = ground arith in
      let c₂ : (m == (min_size left - (live_size left + live_size right))) ≡ true = ground arith in
      let c₃ : leb (min_size merged) (curr_size merged) ≡ true = ground arith in
      let c₄ : ltb right_idx (length parent.slots) ≡ true = ground arith in
      simp (c₁, first, second, c₂, joined, c₃, c₄)

  -- The numbers of a merge: the loops stop with exactly the tombstones to retain, and what is left
  -- fits in one page.
  abbrev Fit : ℕ → ℕ → LeafPage K → LeafPage K → ℕ → ℕ → LeafPage K → LeafPage K → Type 0
  Fit cap retained left right n m left' right' =
      (m ≡ retained)
      × (curr_size left' + curr_size right' ≤ left'.max_size)
      × (get_tombstone_count left' + get_tombstone_count right' ≤ cap)
      × (min_size left ≤ curr_size left' + curr_size right')

  merge_numbers :
      (cap retained : ℕ) (left right left' right' : LeafPage K) (n m : ℕ)
      → LeafInv cap left
      → LeafInv cap right
      → retained ≡ min_size left - (live_size left + live_size right)
      → live_size left + live_size right ≤ left.max_size
      → 2 * min_size left ≤ suc (curr_size left + curr_size right)
      → Pruned cap retained (get_tombstone_count left + get_tombstone_count right) left n left'
      → Pruned cap retained n right m right'
      → Fit cap retained left right n m left' right'
  merge_numbers cap retained left right left' right' n m v w r small halves a b =
      let lv = tombstones_le_size cap left v in
      let lw = tombstones_le_size cap right w in
      let enough : retained ≤ get_tombstone_count left + get_tombstone_count right =
        omega (arith, lv, lw, r, halves) in
      let kept = a.keeps enough in
      let kept' = b.keeps kept in
      let exact : m ≡ retained = elim b.stops [
        | inl q ↦ omega arith
        | inr q ↦ elim a.stops [
          | inl p ↦ omega (arith, a.counts, b.counts)
          | inr p ↦ omega (arith, a.counts, b.counts)
        ]
      ] in
      (
        exact,
        omega (arith, a.counts, a.sizes, b.counts, b.sizes, a.largest, w.capped),
        omega (arith, a.counts, a.sizes, b.counts, b.sizes, v.capped, w.capped),
        omega (arith, a.counts, a.sizes, b.counts, b.sizes),
      )

  -- `merge_leaf_pair` returns on two well-formed leaves of one size whose live entries fit in one and
  -- which have, tombstoned ones included, at least twice the minimum size of entries less one, if
  -- the parent has a slot at `right_idx`: the left leaf is then well formed, has the live entries of
  -- both, in order, and at least the minimum size of entries, and the parent has lost that slot.
  pub merge_leaf_pair-live :
      (cap : ℕ) (parent : InternalPage K) (left right : LeafPage K) (right_idx : ℕ)
      → LeafInv cap left
      → LeafInv cap right
      → left.max_size ≡ right.max_size
      → live_size left + live_size right ≤ left.max_size
      → 2 * min_size left ≤ suc (curr_size left + curr_size right)
      → right_idx < length parent.slots
      → (q : LeafPage K) × (merge_leaf_pair cap parent left right right_idx
          ≡ some (record parent { slots = remove_nth right_idx parent.slots }, q))
        × LeafInv cap q
        × (live q ≡ live left ++ live right)
        × (min_size q ≤ curr_size q)
        × (q.max_size ≡ left.max_size)
  unfolding live
  merge_leaf_pair-live cap parent left right right_idx v w same small halves inside =
      let retained = min_size left - (live_size left + live_size right) in
      let (n, left', first, a) =
        prune_runs cap retained (get_tombstone_count left + get_tombstone_count right) left v
          (omega arith) in
      let (m, right', second, b) = prune_runs cap retained n right w (omega (arith, a.counts)) in
      let (exact, fits, few, half) =
        merge_numbers cap retained left right left' right' n m v w refl small halves a b in
      let (merged, joined, inv, lives, size, largest) =
        coalesce_right_into_page-live cap left' right' a.inv b.inv fits few in
      let big : min_size merged ≤ curr_size merged =
        omega (arith, half, size, largest, a.largest) in
      (
        record merged { next_page_id = right'.next_page_id },
        merge_steps cap parent left right left' right' merged right_idx n m small first second exact
            joined big inside,
        record { fits = inv.fits; capped = inv.capped; marks = inv.marks; unique = inv.unique },
        lives ∙ ap₂ ◌++◌ a.same b.same,
        big,
        largest ∙ a.largest,
      )
