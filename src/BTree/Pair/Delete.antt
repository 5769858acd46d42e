-- ===== src/BTree/Pair/Delete.antt =====
-- `delete_from_leaf` of src/storage/index/b_tree.rs.
use oxtub.Base.{
  ℕ, zero, suc, ◌+◌, ◌<◌, ◌≡◌, refl, ap, Bool, true, false, some, ◌++◌, ◌==◌, arith, length,
}
use oxtub.BTree.Leaf.Defs.{
  LeafPage, curr_size, get_tombstone_count, contains, remove_at, add_tombstone,
}
use oxtub.BTree.Leaf.Invariant.{LeafInv}
use oxtub.BTree.Leaf.Live.{live, live_before, live_from_slot, remove_at-live, add_tombstone-live}
use oxtub.BTree.Pair.Defs.{delete_from_leaf}

-- How many slots the page lost.
abbrev pub lost : Bool → ℕ
lost true = 1
lost false = 0

module _ {K : Type 0} where
  delete_removes :
      (leaf q : LeafPage K) (idx : ℕ)
      → remove_at leaf idx ≡ some q
      → delete_from_leaf 0 leaf idx ≡ some (true, q)
  unfolding delete_from_leaf
  delete_removes leaf q idx e = rw e refl

  delete_marks :
      (cap : ℕ) (leaf q : LeafPage K) (idx : ℕ)
      → get_tombstone_count leaf < cap
      → add_tombstone cap leaf idx ≡ some q
      → delete_from_leaf cap leaf idx ≡ some (false, q)
  unfolding delete_from_leaf
  delete_marks cap leaf q idx room e =
      let some_cap : (cap == 0) ≡ false = ground arith in
      let free : (get_tombstone_count leaf == cap) ≡ false = ground arith in
      simp (some_cap, free, e)

  -- `delete_from_leaf` on a live slot of a well-formed leaf returns, if the leaf keeps no tombstones
  -- or has room for one: the page stays well formed, it loses this live entry only, and the result
  -- says whether it lost a slot.
  pub delete_from_leaf-live :
      (cap : ℕ) (leaf : LeafPage K) (idx : ℕ)
      → LeafInv cap leaf
      → idx < curr_size leaf
      → contains idx leaf.tombstones ≡ false
      → (0 < cap → get_tombstone_count leaf < cap)
      → (removed : Bool) × (q : LeafPage K) × (delete_from_leaf cap leaf idx ≡ some (removed, q))
        × LeafInv cap q
        × (live q ≡ live_before idx leaf ++ live_from_slot (suc idx) leaf)
        × (curr_size q + lost removed ≡ curr_size leaf)
  delete_from_leaf-live zero leaf idx v h c room =
      let (q, e, inv, lives, size, _, _) = remove_at-live 0 leaf idx v h in
      (true, q, delete_removes leaf q idx e, inv, lives, omega (arith, size))
  delete_from_leaf-live (suc cap) leaf idx v h c room =
      let free = room (omega arith) in
      let (q, e, inv, lives, same) = add_tombstone-live (suc cap) leaf idx v h free c in
      (
        false,
        q,
        delete_marks (suc cap) leaf q idx free e,
        inv,
        lives,
        omega (arith, ap length same),
      )
