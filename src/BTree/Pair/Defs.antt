-- ===== src/BTree/Pair/Defs.antt =====
-- The work on a pair of neighbouring leaves in src/storage/index/b_tree.rs. A call that panics is
-- `none`; `cap` is `TOMB_CAP`.
use oxtub.Base.{
  ℕ, zero, suc, ◌+◌, ◌-◌, Bool, true, false, not, ◌&&◌, ◌||◌, Option, none, some, ltb, leb, ◌==◌,
  if◌then◌else◌, get_elem?, and_then,
}
use oxtub.BTree.Internal
use oxtub.BTree.Internal.{InternalPage, set_index_key_at}
use oxtub.BTree.Keys.{Rid}
use oxtub.BTree.Leaf.Defs.{
  LeafPage, curr_size, get_tombstone_count, live_size, min_size, are_tombstones_full,
  is_idx_tombstoned, is_delete_safe, check, insert_at, remove_at, add_tombstone,
  evict_oldest_tombstone, evict_oldest_tombstone_and_append, remove_all_tombstones,
  coalesce_right_into_page,
}

pub data LeafPairAction : Type 0 where
  redistribute merge : LeafPairAction

-- The parent, the left leaf and the right one.
abbrev pub Pair : Type 0 → Type 0
Pair K = InternalPage K × LeafPage K × LeafPage K

-- `usize::max`
abbrev pub larger : ℕ → ℕ → ℕ
larger a b = if leb a b then b else a

module _ {K : Type 0} where
  unfoldable pub choose_leaf_pair_action : LeafPage K → LeafPage K → LeafPairAction
  choose_leaf_pair_action left right =
      if ltb left.max_size (live_size left + live_size right)
      then LeafPairAction.redistribute
      else LeafPairAction.merge

  -- A `while` loop of `merge_leaf_pair`: evict while there are more than `retained` of the `count`
  -- tombstones and the page has one.
  unfoldable pub prune : ℕ → ℕ → LeafPage K → Option (ℕ × LeafPage K)
  prune retained zero p = some (0, p)
  prune retained (suc count) p =
      let next = and_then (evict_oldest_tombstone p) (λ (_, q). prune retained count q) in
      if ltb retained (suc count) && ltb 0 (get_tombstone_count p)
      then next
      else some (suc count, p)

  -- The parent and the left leaf.
  unfoldable pub merge_leaf_pair :
      ℕ → InternalPage K → LeafPage K → LeafPage K → ℕ → Option (InternalPage K × LeafPage K)
  merge_leaf_pair cap parent left right right_idx =
      let total_live_size = live_size left + live_size right in
      let retained = min_size left - total_live_size in
      and_then (check (leb total_live_size left.max_size)) λ _.
        and_then (prune retained (get_tombstone_count left + get_tombstone_count right) left)
          λ (count, left'). and_then (prune retained count right) λ (count', right').
            and_then (check (count' == retained)) λ _.
              and_then (coalesce_right_into_page cap left' right') λ merged.
                and_then (check (leb (min_size merged) (curr_size merged))) λ _.
                  and_then (Internal.remove_at parent right_idx)
                    λ parent'. some (parent', record merged { next_page_id = right'.next_page_id })

  -- `n` entries from the front of the right leaf to the end of the left one.
  unfoldable pub borrow_from_right : ℕ → LeafPage K → LeafPage K → Option (LeafPage K × LeafPage K)
  borrow_from_right zero left right = some (left, right)
  borrow_from_right (suc n) left right = and_then (get_elem? right.entries 0) λ (key, rid).
      and_then (insert_at left (curr_size left) key rid)
        λ left'. and_then (remove_at right 0) λ right'. borrow_from_right n left' right'

  -- `n` entries from the end of the left leaf to the front of the right one.
  unfoldable pub borrow_from_left : ℕ → LeafPage K → LeafPage K → Option (LeafPage K × LeafPage K)
  borrow_from_left zero left right = some (left, right)
  borrow_from_left (suc n) left right =
      and_then (get_elem? left.entries (curr_size left - 1)) λ (key, rid).
        and_then (insert_at right 0 key rid) λ right'.
          and_then (remove_at left (curr_size left - 1)) λ left'. borrow_from_left n left' right'

  -- The branches of `redistribute_leaf_pair` on pages without tombstones.
  unfoldable pub rebalance : LeafPage K → LeafPage K → Option (LeafPage K × LeafPage K)
  rebalance left right =
      if ltb (curr_size left) (min_size left)
      then (let required_count = min_size left - curr_size left in
          and_then (check (leb (min_size right + required_count) (curr_size right)))
            λ _. borrow_from_right required_count left right)
      else if ltb (curr_size right) (min_size right)
      then (let required_count = min_size right - curr_size right in
          and_then (check (leb (min_size left + required_count) (curr_size left)))
            λ _. borrow_from_left required_count left right)
      else none

  unfoldable pub redistribute_leaf_pair :
      InternalPage K → LeafPage K → LeafPage K → ℕ → Option (Pair K)
  redistribute_leaf_pair parent left right right_idx =
      and_then (check (ltb left.max_size (live_size left + live_size right))) λ _.
        and_then (rebalance (remove_all_tombstones left) (remove_all_tombstones right))
          λ (left', right'). and_then (get_elem? right'.entries 0) λ (key, rid).
            and_then (set_index_key_at parent right_idx key rid)
              λ parent'. some (parent', left', right')

  -- Insert the donated entry, with its tombstone if it had one.
  abbrev pub receive : ℕ → LeafPage K → ℕ → K → Rid → Bool → Option (LeafPage K)
  receive cap leaf idx key rid tombstoned =
      and_then (insert_at leaf idx key rid)
        λ leaf'. if tombstoned then add_tombstone cap leaf' idx else some leaf'

  -- Whether the leaf borrowed, and the parent, the leaf and the donor.
  unfoldable pub try_borrow_from_left_leaf :
      ℕ → InternalPage K → ℕ → LeafPage K → LeafPage K → Option (Bool × Pair K)
  try_borrow_from_left_leaf cap parent leaf_idx leaf donor =
      let donated_idx = curr_size donor - 1 in
      let tombstoned = is_idx_tombstoned donor donated_idx in
      if not (is_delete_safe donor) || (tombstoned && are_tombstones_full cap leaf)
      then some (false, (parent, leaf, donor))
      else (and_then (get_elem? donor.entries donated_idx) λ (key, rid).
          and_then (receive cap leaf 0 key rid tombstoned) λ leaf'.
            and_then (remove_at donor donated_idx) λ donor'.
              and_then (set_index_key_at parent leaf_idx key rid)
                λ parent'. some (true, (parent', leaf', donor')))

  unfoldable pub try_borrow_from_right_leaf :
      ℕ → InternalPage K → ℕ → LeafPage K → LeafPage K → Option (Bool × Pair K)
  try_borrow_from_right_leaf cap parent donor_idx leaf donor =
      let tombstoned = is_idx_tombstoned donor 0 in
      if not (is_delete_safe donor) || (tombstoned && are_tombstones_full cap leaf)
      then some (false, (parent, leaf, donor))
      else (and_then (get_elem? donor.entries 0) λ (key, rid).
          and_then (receive cap leaf (curr_size leaf) key rid tombstoned) λ leaf'.
            and_then (remove_at donor 0) λ donor'.
              and_then (get_elem? donor'.entries 0) λ (first, first_rid).
                and_then (set_index_key_at parent donor_idx first first_rid)
                  λ parent'. some (true, (parent', leaf', donor')))

  unfoldable pub can_merge_right_into_leaf : ℕ → LeafPage K → LeafPage K → Bool
  can_merge_right_into_leaf cap left right =
      let total_entries = curr_size left + curr_size right in
      let total_tombstones = get_tombstone_count left + get_tombstone_count right in
      let required_prunes = larger (total_entries - left.max_size) (total_tombstones - cap) in
      leb required_prunes total_tombstones && leb (min_size left) (total_entries - required_prunes)

  -- Whether an entry left the page, and the page.
  unfoldable pub delete_from_leaf : ℕ → LeafPage K → ℕ → Option (Bool × LeafPage K)
  delete_from_leaf cap leaf idx =
      if cap == 0
      then and_then (remove_at leaf idx) (λ q. some (true, q))
      else if not (are_tombstones_full cap leaf)
      then and_then (add_tombstone cap leaf idx) (λ q. some (false, q))
      else and_then (evict_oldest_tombstone_and_append cap leaf idx) (λ q. some (true, q))

  unfoldable pub is_leaf_delete_safe : ℕ → LeafPage K → Bool → Bool
  is_leaf_delete_safe cap leaf is_root =
      if is_root
      then ltb 1 (curr_size leaf) || ltb 0 cap
      else not (are_tombstones_full cap leaf) || is_delete_safe leaf
