-- ===== src/BTree/Internal.antt =====
-- src/storage/page/b_tree_internal_page.rs. A page is its capacity, its slots below `current_size`, a
-- separator and a child each, and the separators written behind them. A call that panics is `none`.
use oxtub.Base.{
  ℕ, zero, Bool, false, ◌+◌, and_then, ◌-◌, ◌/◌, get_elem?, ◌==◌, suc, Option, none, some, List, [],
  ◌∷◌, ltb, if◌then◌else◌, length,
}
use oxtub.Base.Assoc.{insert, remove}
use oxtub.BTree.Keys.{Entry, KeyComparator, Rid, cmp_entry, is_le, is_lt}
use oxtub.BTree.Leaf.Defs.{insert_nth, remove_nth}

pub record InternalPage (K : Type 0) : Type 0 where
  pub max_size : ℕ
  -- the separator of slot 0 has no meaning
  pub slots : List (Entry K × ℕ)
  -- Separators by their index, at `current_size` or behind it. What is in the other places there is
  -- left open.
  pub behind : List (ℕ × Entry K)

module _ {K : Type 0} where
  -- A slot keeps its child.
  abbrev pub write_separator : ℕ → Entry K → List (Entry K × ℕ) → List (Entry K × ℕ)
  write_separator idx e [] = []
  write_separator zero e ((_, child) ∷ slots) = (e, child) ∷ slots
  write_separator (suc idx) e (slot ∷ slots) = slot ∷ write_separator idx e slots

  unfoldable pub set_index_key_at : InternalPage K → ℕ → K → Rid → Option (InternalPage K)
  set_index_key_at p idx key rid =
      if ltb idx p.max_size
      then some (
          if ltb idx (length p.slots)
          then record p { slots = write_separator idx (key, rid) p.slots }
          else record p { behind = insert idx (key, rid) p.behind })
      else none

  unfoldable pub remove_at : InternalPage K → ℕ → Option (InternalPage K)
  remove_at p idx =
      if ltb idx (length p.slots) then some (record p { slots = remove_nth idx p.slots }) else none

  -- `values().position(value)`, counted from `i`.
  abbrev pub value_from : ℕ → ℕ → List (Entry K × ℕ) → Option ℕ
  value_from i child [] = none
  value_from i child ((_, c) ∷ slots) =
      let rest = value_from (suc i) child slots in if c == child then some i else rest

  unfoldable pub value_idx : InternalPage K → ℕ → Option ℕ
  value_idx p child = value_from 0 child p.slots

  -- The place at `current_size` becomes a slot.
  unfoldable pub insert_after : InternalPage K → ℕ → K → Rid → ℕ → Option (InternalPage K)
  insert_after p after key rid child = and_then (value_idx p after) λ after_idx.
      if ltb (length p.slots) p.max_size
      then some (record p {
        slots = insert_nth (after_idx + 1) ((key, rid), child) p.slots;
        behind = remove (length p.slots) p.behind;
      })
      else none

  -- The separator of a slot compares less than the key, by the key alone.
  abbrev pub separator_key_lt : KeyComparator K → K → List (Entry K × ℕ) → ℕ → Bool
  separator_key_lt c key slots i = elim (get_elem? slots i) [
    | none ↦ false
    | some (e, _) ↦ is_lt (c.cmp e.0 key)
  ]

  -- The separator of a slot is at most the full key.
  abbrev pub separator_le : KeyComparator K → Entry K → List (Entry K × ℕ) → ℕ → Bool
  separator_le c e slots i = elim (get_elem? slots i) [
    | none ↦ false
    | some (s, _) ↦ is_le (cmp_entry c s e)
  ]

-- `while right - left > 1`: the two bounds at the end; `none` is the end of the fuel.
unfoldable pub child_loop : (ℕ → Bool) → ℕ → ℕ → ℕ → Option (ℕ × ℕ)
child_loop goes_right zero left right = if ltb 1 (right - left) then none else some (left, right)
child_loop goes_right (suc fuel) left right =
    let mid = left + (right - left) / 2 in
    let upper = child_loop goes_right fuel mid right in
    let lower = child_loop goes_right fuel left mid in
    if ltb 1 (right - left) then if goes_right mid then upper else lower else some (left, right)

module _ {K : Type 0} where
  unfoldable pub find_child_idx : KeyComparator K → InternalPage K → K → Option ℕ
  find_child_idx c p key =
      let size = length p.slots in
      if ltb 0 size
      then (and_then (child_loop (separator_key_lt c key p.slots) size 0 size)
          λ (left, right). some (right - 1))
      else none

  unfoldable pub find_child_idx_for_insert : KeyComparator K → InternalPage K → K → Rid → Option ℕ
  find_child_idx_for_insert c p key rid =
      let size = length p.slots in
      if ltb 0 size
      then (and_then (child_loop (separator_le c (key, rid) p.slots) size 0 size)
          λ (left, right). some left)
      else none
