-- ===== src/BTree/Tests.antt =====
-- Witnesses, on small leaf pages.
use oxtub.Base.{
  Bool, compare, zero, ℕ, suc, ◌+◌, ◌-◌, ◌≤◌, ◌≡◌, refl, false, some, ◌<◌, List, take, [], ◌∷◌,
  ◌++◌, arith, length, get_elem?, inl, ltb,
}
use oxtub.BTree.Children.{IsChild, Ordered, find_child_idx-IsChild}
use oxtub.BTree.Internal.{
  InternalPage, find_child_idx, find_child_idx_for_insert, separator_key_lt, separator_le,
}
use oxtub.BTree.Keys.{KeyComparator, compare_rid, Entry, Rid}
use oxtub.BTree.Leaf.Defs.{
  LeafPage, insert_at, remove_at, curr_size, live_size, min_size, contains, shift_down, remove_nth,
  add_tombstone, evict_oldest_tombstone, remove_tombstone_at, coalesce_right_into_page,
  move_split_entries_to, lower_bound_by, evict_oldest_tombstone_and_append,
}
use oxtub.BTree.Leaf.Evict.{evict_and_append_misses}
use oxtub.BTree.Leaf.Invariant.{LeafInv}
use oxtub.BTree.Leaf.Live.{
  live, live_before, live_from_slot, insert_at-live, remove_at-live, evict_oldest_tombstone-live,
  add_tombstone-live, remove_tombstone_at-live,
}
use oxtub.BTree.Leaf.Moves.{coalesce_right_into_page-live, move_split_entries_to-live}
use oxtub.BTree.Leaf.Search.{IsBound, lower_bound_by-IsBound}
use oxtub.BTree.Pair.Delete.{lost, delete_from_leaf-live}
use oxtub.BTree.Pair.Defs.{delete_from_leaf, merge_leaf_pair, redistribute_leaf_pair}
use oxtub.BTree.Pair.Merge.{merge_leaf_pair-live}
use oxtub.BTree.Pair.Separator.{SeparatorAt}
use oxtub.BTree.Pair.Redistribute.{redistribute_leaf_pair-live}

abbrev rid : ℕ → Rid
rid n = record { page_id = 1; slot_id = n }

abbrev entry : ℕ → Entry ℕ
entry n = (n, rid n)

-- Four entries, of which the second is deleted.
abbrev page : LeafPage ℕ
page = record {
  max_size = 8;
  entries = entry 1 ∷ entry 2 ∷ entry 3 ∷ entry 4 ∷ [];
  tombstones = 1 ∷ [];
  next_page_id = 7;
}

abbrev sibling : LeafPage ℕ
sibling = record {
  max_size = 8;
  entries = entry 5 ∷ entry 6 ∷ entry 7 ∷ [];
  tombstones = 2 ∷ [];
  next_page_id = 9;
}

abbrev empty_page : LeafPage ℕ
empty_page = record { max_size = 8; entries = []; tombstones = []; next_page_id = 0 }

abbrev long_page : LeafPage ℕ
long_page = record {
  max_size = 8;
  entries = entry 5 ∷ entry 6 ∷ entry 7 ∷ entry 8 ∷ entry 9 ∷ entry 10 ∷ entry 11 ∷ [];
  tombstones = [];
  next_page_id = 9;
}

abbrev parent : InternalPage ℕ
parent = record {
  max_size = 4;
  slots = (entry 0, 3) ∷ (entry 5, 4) ∷ (entry 9, 5) ∷ [];
  behind = [];
}

page-LeafInv : LeafInv 2 page
page-LeafInv = record {
  fits = omega arith;
  capped = omega arith;
  marks = (omega arith, tt);
  unique = (refl, tt);
}

sibling-LeafInv : LeafInv 2 sibling
sibling-LeafInv = record {
  fits = omega arith;
  capped = omega arith;
  marks = (omega arith, tt);
  unique = (refl, tt);
}

long_page-LeafInv : LeafInv 2 long_page
long_page-LeafInv = record { fits = omega arith; capped = omega arith; marks = tt; unique = tt }

full-LeafInv : LeafInv 1 page
full-LeafInv = record {
  fits = omega arith;
  capped = omega arith;
  marks = (omega arith, tt);
  unique = (refl, tt);
}

insert_at-live_example :
    (q : LeafPage ℕ) × (insert_at page 2 9 (rid 9) ≡ some q)
    × LeafInv 2 q
    × (live q ≡ live_before 2 page ++ entry 9 ∷ live_from_slot 2 page)
insert_at-live_example = insert_at-live 2 page 2 9 (rid 9) page-LeafInv (omega arith) (omega arith)

remove_at-live_example :
    (q : LeafPage ℕ) × (remove_at page 0 ≡ some q)
    × LeafInv 2 q
    × (live q ≡ live_before 0 page ++ live_from_slot 1 page)
    × (suc (curr_size q) ≡ curr_size page)
    × (q.tombstones ≡ shift_down 0 page.tombstones)
    × (q.max_size ≡ page.max_size)
remove_at-live_example = remove_at-live 2 page 0 page-LeafInv (omega arith)

evict_oldest_tombstone-live_example :
    (t : ℕ) × (q : LeafPage ℕ) × (evict_oldest_tombstone page ≡ some (t, q))
    × LeafInv 2 q
    × (live q ≡ live page)
    × (suc (curr_size q) ≡ curr_size page)
    × (suc (length q.tombstones) ≡ length page.tombstones)
    × (q.max_size ≡ page.max_size)
evict_oldest_tombstone-live_example = evict_oldest_tombstone-live 2 page page-LeafInv (omega arith)

add_tombstone-live_example :
    (q : LeafPage ℕ) × (add_tombstone 2 page 3 ≡ some q)
    × LeafInv 2 q
    × (live q ≡ live_before 3 page ++ live_from_slot 4 page)
    × (q.entries ≡ page.entries)
add_tombstone-live_example =
    add_tombstone-live 2 page 3 page-LeafInv (omega arith) (omega arith) refl

remove_tombstone_at-live_example :
    (q : LeafPage ℕ) × (remove_tombstone_at page 1 ≡ some q)
    × LeafInv 2 q
    × (live q ≡ live_before 1 page ++ entry 2 ∷ live_from_slot 2 page)
    × (q.entries ≡ page.entries)
remove_tombstone_at-live_example = remove_tombstone_at-live 2 page 1 (entry 2) page-LeafInv refl

coalesce_right_into_page-live_example :
    (q : LeafPage ℕ) × (coalesce_right_into_page 2 page sibling ≡ some q)
    × LeafInv 2 q
    × (live q ≡ live page ++ live sibling)
    × (curr_size q ≡ curr_size page + curr_size sibling)
    × (q.max_size ≡ page.max_size)
coalesce_right_into_page-live_example =
    coalesce_right_into_page-live 2 page sibling page-LeafInv sibling-LeafInv (omega arith)
      (omega arith)

move_split_entries_to-live_example :
    (q : LeafPage ℕ) × (r : LeafPage ℕ) × (move_split_entries_to page empty_page 1 ≡ some (q, r))
    × LeafInv 2 q
    × LeafInv 2 r
    × (q.entries ≡ take 1 page.entries)
    × ((i : ℕ) → i < 1 → contains i q.tombstones ≡ contains i page.tombstones)
    × (live r ≡ live_from_slot 1 page)
    × (live page ≡ live q ++ live r)
    × (curr_size q ≡ 1)
    × (r.tombstones ≡ [])
move_split_entries_to-live_example =
    move_split_entries_to-live 2 page empty_page 1 page-LeafInv refl refl (omega arith)

lower_bound_by-IsBound_example :
    (pos : ℕ) × (lower_bound_by (λ i. ltb i 3) 5 ≡ some pos) × IsBound (λ i. ltb i 3) 5 pos
lower_bound_by-IsBound_example =
    lower_bound_by-IsBound (λ i. ltb i 3) 5 (λ i j h _ less. ground arith)

-- A leaf with one tombstone, and room for one: the entry 4 is to be deleted.
abbrev crowded : LeafPage ℕ
crowded = record {
  max_size = 8;
  entries = entry 1 ∷ entry 2 ∷ entry 3 ∷ entry 4 ∷ entry 5 ∷ [];
  tombstones = 0 ∷ [];
  next_page_id = 7;
}

crowded-LeafInv : LeafInv 1 crowded
crowded-LeafInv = record {
  fits = omega arith;
  capped = omega arith;
  marks = (omega arith, tt);
  unique = (refl, tt);
}

evict_and_append_misses_example :
    (q : LeafPage ℕ) × (evict_oldest_tombstone_and_append 1 crowded 3 ≡ some q)
    × (curr_size q + 2 ≡ curr_size crowded)
    × (get_elem? q.entries (3 - 2) ≡ get_elem? crowded.entries 3)
    × (contains (3 - 2) q.tombstones ≡ false)
evict_and_append_misses_example =
    evict_and_append_misses 1 crowded 0 3 [] crowded-LeafInv refl refl (omega arith) (omega arith)

merge_leaf_pair-live_example :
    (q : LeafPage ℕ) × (merge_leaf_pair 2 parent page sibling 1
      ≡ some (record parent { slots = remove_nth 1 parent.slots }, q))
    × LeafInv 2 q
    × (live q ≡ live page ++ live sibling)
    × (min_size q ≤ curr_size q)
    × (q.max_size ≡ page.max_size)
merge_leaf_pair-live_example =
    merge_leaf_pair-live 2 parent page sibling 1 page-LeafInv sibling-LeafInv refl (omega arith)
      (omega arith) (omega arith)

redistribute_leaf_pair-live_example :
    (slots : List (Entry ℕ × ℕ)) × (e : Entry ℕ) × (l : LeafPage ℕ) × (r : LeafPage ℕ)
    × (redistribute_leaf_pair parent page long_page 1
        ≡ some (record parent { slots = slots }, l, r))
    × SeparatorAt 1 e parent.slots slots
    × LeafInv 2 l
    × LeafInv 2 r
    × (live l ++ live r ≡ live page ++ live long_page)
    × (min_size page ≤ live_size l)
    × (min_size long_page ≤ live_size r)
    × (get_elem? r.entries 0 ≡ some e)
redistribute_leaf_pair-live_example =
    redistribute_leaf_pair-live 2 parent page long_page 1 page-LeafInv long_page-LeafInv refl
      (omega arith) (omega arith) (inl (omega arith)) (omega arith) (omega arith)

-- Whole numbers as keys.
abbrev number_keys : KeyComparator ℕ
number_keys = record {
  cmp = λ a b. compare a b;
  cmp_refl = λ a. ground arith;
  eq_of_cmp = λ a b h. ground arith;
  lt_of_gt = λ a b h. ground arith;
  gt_of_lt = λ a b h. ground arith;
  lt_trans = λ a b c h k. ground arith;
}

by_key : Ordered (separator_key_lt number_keys 7 parent.slots) 3
by_key zero j p h q r = absurd (omega arith)
by_key (suc zero) j p h q r = refl
by_key (suc (suc zero)) zero p h q r = absurd (omega arith)
by_key (suc (suc zero)) (suc zero) p h q r = absurd (omega arith)
by_key (suc (suc zero)) (suc (suc zero)) p h q r = r
by_key (suc (suc zero)) (suc (suc (suc j))) p h q r = absurd (omega arith)
by_key (suc (suc (suc i))) j p h q r = absurd (omega arith)

by_entry : Ordered (separator_le number_keys (entry 7) parent.slots) 3
unfolding compare_rid
by_entry zero j p h q r = absurd (omega arith)
by_entry (suc zero) j p h q r = refl
by_entry (suc (suc zero)) zero p h q r = absurd (omega arith)
by_entry (suc (suc zero)) (suc zero) p h q r = absurd (omega arith)
by_entry (suc (suc zero)) (suc (suc zero)) p h q r = r
by_entry (suc (suc zero)) (suc (suc (suc j))) p h q r = absurd (omega arith)
by_entry (suc (suc (suc i))) j p h q r = absurd (omega arith)

find_child_idx-IsChild_example :
    ((idx : ℕ) × (find_child_idx number_keys parent 7 ≡ some idx)
      × IsChild (separator_key_lt number_keys 7 parent.slots) 3 idx)
    × ((idx : ℕ) × (find_child_idx_for_insert number_keys parent 7 (rid 7) ≡ some idx)
        × IsChild (separator_le number_keys (entry 7) parent.slots) 3 idx)
find_child_idx-IsChild_example =
    find_child_idx-IsChild number_keys parent 7 (rid 7) (omega arith) by_key by_entry

delete_from_leaf-live_example :
    (removed : Bool) × (q : LeafPage ℕ) × (delete_from_leaf 2 page 3 ≡ some (removed, q))
    × LeafInv 2 q
    × (live q ≡ live_before 3 page ++ live_from_slot 4 page)
    × (curr_size q + lost removed ≡ curr_size page)
delete_from_leaf-live_example =
    delete_from_leaf-live 2 page 3 page-LeafInv (omega arith) refl (λ _. omega arith)
