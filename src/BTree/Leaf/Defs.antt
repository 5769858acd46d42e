-- ===== src/BTree/Leaf/Defs.antt =====
-- src/storage/page/b_tree_leaf_page.rs. A page is its header fields, the entries of the slots below
-- `current_size` and the tombstones below `num_tombstones`, in the order of their arrays. A call
-- that panics is `none`. Slot numbers fit in a `u16`, as `max_size` does.
use oxtub.Base.{
  ℕ, zero, suc, ◌+◌, ◌-◌, ◌/◌, Bool, true, false, not, ◌&&◌, Option, none, some, List, [], ◌∷◌,
  ◌++◌, ltb, leb, ◌==◌, if◌then◌else◌, length, get_elem?, take, drop, and_then,
}
use oxtub.BTree.Keys.{Entry, KeyComparator, Rid, cmp_entry, is_lt}

pub record LeafPage (K : Type 0) : Type 0 where
  pub max_size : ℕ
  pub entries : List (Entry K)
  -- slots of deleted entries, the oldest deletion first
  pub tombstones : List ℕ
  pub next_page_id : ℕ

abbrev pub invalid_page_id : ℕ
invalid_page_id = 0

abbrev pub check : Bool → Option (Unit {0})
check true = some tt
check false = none

-- The list operations behind the loops over the slots.
module _ {ℓ} {A : Type ℓ} where
  -- shift the slots from `idx` on to the right, and write the new one
  abbrev pub insert_nth : ℕ → A → List A → List A
  insert_nth zero a xs = a ∷ xs
  insert_nth (suc i) a [] = a ∷ []
  insert_nth (suc i) a (x ∷ xs) = x ∷ insert_nth i a xs

  -- shift the slots behind `idx` to the left
  abbrev pub remove_nth : ℕ → List A → List A
  remove_nth i [] = []
  remove_nth zero (x ∷ xs) = xs
  remove_nth (suc i) (x ∷ xs) = x ∷ remove_nth i xs

abbrev pub contains : ℕ → List ℕ → Bool
contains i [] = false
contains i (t ∷ ts) = if t == i then true else contains i ts

-- The tombstones after an insertion at `idx`.
abbrev pub shift_up : ℕ → List ℕ → List ℕ
shift_up idx [] = []
shift_up idx (t ∷ ts) = (if leb idx t then t + 1 else t) ∷ shift_up idx ts

-- The tombstones after the removal of slot `idx`.
abbrev pub shift_down : ℕ → List ℕ → List ℕ
shift_down idx [] = []
shift_down idx (t ∷ ts) =
    if t == idx then shift_down idx ts else (if ltb idx t then t - 1 else t) ∷ shift_down idx ts

abbrev pub without : ℕ → List ℕ → List ℕ
without idx [] = []
without idx (t ∷ ts) = if t == idx then without idx ts else t ∷ without idx ts

-- The tombstones below `start`.
abbrev pub below : ℕ → List ℕ → List ℕ
below start [] = []
below start (t ∷ ts) = if ltb t start then t ∷ below start ts else below start ts

abbrev pub add_to_all : ℕ → List ℕ → List ℕ
add_to_all n [] = []
add_to_all n (t ∷ ts) = (t + n) ∷ add_to_all n ts

abbrev pub oldest : List ℕ → Option ℕ
oldest [] = none
oldest (t ∷ ts) = some t

-- `while left < right` of `lower_bound_by`; `less i` is `compare_entry(i) == Less`. The fuel is the
-- number of slots: each step leaves fewer of them.
unfoldable pub lower_bound_loop : (ℕ → Bool) → ℕ → ℕ → ℕ → Option ℕ
lower_bound_loop less zero left right = if ltb left right then none else some left
lower_bound_loop less (suc fuel) left right =
    let mid = left + (right - left) / 2 in
    let upper = lower_bound_loop less fuel (mid + 1) right in
    let lower = lower_bound_loop less fuel left mid in
    if ltb left right then if less mid then upper else lower else some left

unfoldable pub lower_bound_by : (ℕ → Bool) → ℕ → Option ℕ
lower_bound_by less size = lower_bound_loop less size 0 size

module _ {K : Type 0} where
  -- `init_with_max_size`
  unfoldable pub init_with_max_size : ℕ → ℕ → Option (LeafPage K)
  init_with_max_size largest max_size =
      if leb 2 max_size && leb max_size largest
      then some (record {
        max_size = max_size;
        entries = [];
        tombstones = [];
        next_page_id = invalid_page_id;
      })
      else none

  abbrev pub curr_size : LeafPage K → ℕ
  curr_size p = length p.entries

  abbrev pub get_tombstone_count : LeafPage K → ℕ
  get_tombstone_count p = length p.tombstones

  abbrev pub live_size : LeafPage K → ℕ
  live_size p = curr_size p - get_tombstone_count p

  abbrev pub min_size : LeafPage K → ℕ
  min_size p = p.max_size / 2

  abbrev pub are_tombstones_full : ℕ → LeafPage K → Bool
  are_tombstones_full cap p = get_tombstone_count p == cap

  abbrev pub is_idx_tombstoned : LeafPage K → ℕ → Bool
  is_idx_tombstoned p idx = contains idx p.tombstones

  abbrev pub is_insert_safe : LeafPage K → Bool
  is_insert_safe p = ltb (curr_size p + 1) p.max_size

  abbrev pub is_delete_safe : LeafPage K → Bool
  is_delete_safe p = ltb (min_size p) (curr_size p)

  -- `cmp_key_rid_to_idx(..) == Less` at a slot, `false` where there is none.
  abbrev pub slot_less : KeyComparator K → Entry K → List (Entry K) → ℕ → Bool
  slot_less c e entries i = elim (get_elem? entries i) [
    | none ↦ false
    | some s ↦ is_lt (cmp_entry c s e)
  ]

  -- the same by the key alone
  abbrev pub slot_key_less : KeyComparator K → K → List (Entry K) → ℕ → Bool
  slot_key_less c k entries i = elim (get_elem? entries i) [
    | none ↦ false
    | some s ↦ is_lt (c.cmp s.0 k)
  ]

  unfoldable pub find_pos : KeyComparator K → LeafPage K → K → Option ℕ
  find_pos c p key = lower_bound_by (slot_key_less c key p.entries) (curr_size p)

  unfoldable pub find_insert_pos : KeyComparator K → LeafPage K → K → Rid → Option ℕ
  find_insert_pos c p key rid = lower_bound_by (slot_less c (key, rid) p.entries) (curr_size p)

  unfoldable pub insert_at : LeafPage K → ℕ → K → Rid → Option (LeafPage K)
  insert_at p idx key rid =
      if leb idx (curr_size p) && ltb (curr_size p) p.max_size
      then some (record p {
        tombstones = shift_up idx p.tombstones;
        entries = insert_nth idx (key, rid) p.entries;
      })
      else none

  unfoldable pub remove_at : LeafPage K → ℕ → Option (LeafPage K)
  remove_at p idx =
      if ltb idx (curr_size p)
      then some (record p {
        entries = remove_nth idx p.entries;
        tombstones = shift_down idx p.tombstones;
      })
      else none

  -- A page with more tombstones than slots for them panics at the write.
  unfoldable pub add_tombstone : ℕ → LeafPage K → ℕ → Option (LeafPage K)
  add_tombstone cap p idx =
      if ltb (get_tombstone_count p) cap && ltb idx (curr_size p)
      then some (record p { tombstones = p.tombstones ++ idx ∷ [] })
      else none

  unfoldable pub evict_oldest_tombstone : LeafPage K → Option (ℕ × LeafPage K)
  evict_oldest_tombstone p =
      and_then (oldest p.tombstones)
        λ evicted. and_then (remove_at p evicted) λ q. some (evicted, q)

  unfoldable pub evict_oldest_tombstone_and_append : ℕ → LeafPage K → ℕ → Option (LeafPage K)
  evict_oldest_tombstone_and_append cap p idx = and_then (check (ltb idx (curr_size p))) λ _.
      and_then (check (not (is_idx_tombstoned p idx))) λ _.
        and_then (evict_oldest_tombstone p) λ (evicted, q).
          and_then (remove_at q evicted)
            λ q'. add_tombstone cap q' (if ltb evicted idx then idx - 1 else idx)

  unfoldable pub remove_tombstone_at : LeafPage K → ℕ → Option (LeafPage K)
  remove_tombstone_at p idx =
      if ltb idx (curr_size p)
      then some (record p { tombstones = without idx p.tombstones })
      else none

  -- The entries whose slot, counted from `i`, has no tombstone.
  abbrev pub live_from : ℕ → List ℕ → List (Entry K) → List (Entry K)
  live_from i ts [] = []
  live_from i ts (e ∷ es) =
      let rest = live_from (suc i) ts es in if contains i ts then rest else e ∷ rest

  unfoldable pub remove_all_tombstones : LeafPage K → LeafPage K
  remove_all_tombstones p =
      if get_tombstone_count p == 0
      then p
      else record p { entries = live_from 0 p.tombstones p.entries; tombstones = [] }

  -- `write_entry` for each item, at the end of the page.
  abbrev pub write_entries : ℕ → List (Entry K) → List (Entry K) → Option (List (Entry K))
  write_entries max_size out [] = some out
  write_entries max_size out (e ∷ es) =
      let rest = write_entries max_size (out ++ e ∷ []) es in
      if ltb (length out) max_size then rest else none

  -- The page and its new sibling.
  unfoldable pub move_split_entries_to :
      LeafPage K → LeafPage K → ℕ → Option (LeafPage K × LeafPage K)
  move_split_entries_to p recipient start_idx = and_then (check (ltb start_idx (curr_size p))) λ _.
      and_then
        (write_entries recipient.max_size recipient.entries
          (live_from start_idx p.tombstones (drop start_idx p.entries)))
        λ moved. some (
          record p {
            entries = take start_idx p.entries;
            tombstones = below start_idx p.tombstones;
          },
          record recipient { entries = moved; tombstones = [] },
        )

  abbrev pub add_tombstones : ℕ → LeafPage K → List ℕ → Option (LeafPage K)
  add_tombstones cap p [] = some p
  add_tombstones cap p (t ∷ ts) = and_then (add_tombstone cap p t) (λ q. add_tombstones cap q ts)

  unfoldable pub coalesce_right_into_page : ℕ → LeafPage K → LeafPage K → Option (LeafPage K)
  coalesce_right_into_page cap p right =
      and_then (check (leb (curr_size p + curr_size right) p.max_size)) λ _.
        and_then (check (leb (get_tombstone_count p + get_tombstone_count right) cap)) λ _.
          and_then (write_entries p.max_size p.entries right.entries) λ merged.
            add_tombstones cap (record p { entries = merged })
              (add_to_all (curr_size p) right.tombstones)
