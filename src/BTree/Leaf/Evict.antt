-- ===== src/BTree/Leaf/Evict.antt =====
-- `evict_oldest_tombstone_and_append` of src/storage/page/b_tree_leaf_page.rs: it removes the slot of
-- the oldest tombstone twice.
use oxtub.Base.{
  ℕ, zero, suc, ◌+◌, ◌-◌, ◌≤◌, ◌<◌, ◌≡◌, refl, ap, ◌∙◌, subst, false, some, List, [], ◌∷◌, ◌++◌,
  length, arith, get_elem?,
}
use oxtub.BTree.Keys.{Entry}
use oxtub.BTree.Leaf.Defs.{
  LeafPage, contains, curr_size, shift_down, remove_nth, remove_at, add_tombstone, oldest,
  evict_oldest_tombstone, evict_oldest_tombstone_and_append,
}
use oxtub.BTree.Leaf.Invariant.{
  LeafInv, Unique, shift_down-length, shift_down-length_le, remove_nth-length,
}
use oxtub.BTree.Leaf.Tombs.{contains-append, contains-shift_down_ge}

module _ {K : Type 0} where
  get_elem?-remove_nth :
      (k i : ℕ) (es : List (Entry K)) → k ≤ i → get_elem? (remove_nth k es) i ≡ get_elem? es (suc i)
  get_elem?-remove_nth k i [] h = refl
  get_elem?-remove_nth zero i (x ∷ es) h = refl
  get_elem?-remove_nth (suc k) zero (x ∷ es) h = absurd (omega arith)
  get_elem?-remove_nth (suc k) (suc i) (x ∷ es) h = get_elem?-remove_nth k i es (omega arith)

  -- The page after the two removals and the new mark.
  abbrev doubled : LeafPage K → ℕ → ℕ → LeafPage K
  doubled p t idx = record p {
    entries = remove_nth t (remove_nth t p.entries);
    tombstones = shift_down t (shift_down t p.tombstones) ++ (idx - 1) ∷ [];
  }

  evict_and_append_runs :
      (cap : ℕ) (p : LeafPage K) (t idx : ℕ) (ts : List ℕ)
      → p.tombstones ≡ t ∷ ts
      → contains idx p.tombstones ≡ false
      → t < idx
      → idx + 1 < length p.entries
      → suc (length (remove_nth t p.entries)) ≡ length p.entries
      → suc (suc (length (remove_nth t (remove_nth t p.entries)))) ≡ length p.entries
      → length (shift_down t (shift_down t p.tombstones)) < cap
      → evict_oldest_tombstone_and_append cap p idx ≡ some (doubled p t idx)
  unfolding evict_oldest_tombstone_and_append evict_oldest_tombstone remove_at add_tombstone
  evict_and_append_runs cap p t idx ts e live less inside one two room = ground (arith, ap oldest e)

  -- On a well-formed page whose tombstones are full, a delete of a live slot `idx` that stands at
  -- least two behind the oldest tombstone, and not at the end: the page loses two slots instead of
  -- one, and the entry that was to be deleted is still there without a tombstone.
  pub evict_and_append_misses :
      (cap : ℕ) (p : LeafPage K) (t idx : ℕ) (ts : List ℕ)
      → LeafInv cap p
      → p.tombstones ≡ t ∷ ts
      → contains idx p.tombstones ≡ false
      → t + 1 < idx
      → idx + 1 < curr_size p
      → (q : LeafPage K) × (evict_oldest_tombstone_and_append cap p idx ≡ some q)
        × (curr_size q + 2 ≡ curr_size p)
        × (get_elem? q.entries (idx - 2) ≡ get_elem? p.entries idx)
        × (contains (idx - 2) q.tombstones ≡ false)
  evict_and_append_misses cap p t idx ts v e live less inside =
      let one = remove_nth-length t p.entries (omega arith) in
      let two = remove_nth-length t (remove_nth t p.entries) (omega (arith, one)) in
      let once : length (shift_down t p.tombstones) ≡ length ts =
        ap (λ x. length (shift_down t x)) e ∙ shift_down_first t ts (subst Unique e v.unique).0 in
      (
        doubled p t idx,
        evict_and_append_runs cap p t idx ts e live (omega arith) inside one
            (omega (arith, one, two))
            (omega (
              arith,
              once,
              shift_down-length_le t (shift_down t p.tombstones),
              v.capped,
              ap length e,
            )),
        omega (arith, one, two),
        still_there,
        unmarked,
      )
    where
      shift_down_first :
          (t : ℕ) (ts : List ℕ) → contains t ts ≡ false → length (shift_down t (t ∷ ts)) ≡ length ts
      shift_down_first t ts c = ground (arith, shift_down-length t ts c)

      again : suc (suc (idx - 2)) ≡ idx
      again = omega arith

      still_there :
          get_elem? (remove_nth t (remove_nth t p.entries)) (idx - 2) ≡ get_elem? p.entries idx
      still_there =
          get_elem?-remove_nth t (idx - 2) (remove_nth t p.entries) (omega arith)
          ∙ get_elem?-remove_nth t (suc (idx - 2)) p.entries (omega arith)
          ∙ ap (get_elem? p.entries) again

      unmarked :
          contains (idx - 2) (shift_down t (shift_down t p.tombstones) ++ (idx - 1) ∷ []) ≡ false
      unmarked = ground (
        arith,
        contains-append (idx - 2) (shift_down t (shift_down t p.tombstones)) ((idx - 1) ∷ []),
        contains-shift_down_ge (idx - 2) t (shift_down t p.tombstones) (omega arith),
        contains-shift_down_ge (suc (idx - 2)) t p.tombstones (omega arith),
        ap (λ x. contains x p.tombstones) again,
      )
