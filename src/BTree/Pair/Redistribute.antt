-- ===== src/BTree/Pair/Redistribute.antt =====
-- `redistribute_leaf_pair` of src/storage/index/b_tree.rs.
use oxtub.Base.{
  ℕ, zero, suc, ◌+◌, ◌-◌, ◌≤◌, ◌<◌, ◌≡◌, refl, ap, sym, ◌∙◌, subst, true, false, some, List, [],
  ◌∷◌, ◌++◌, ltb, leb, arith, inl, inr, ◌⊎◌, length, get_elem?, ap₂, length-append,
}
use mathlib.Core.List.{append_assoc}
use oxtub.BTree.Internal.{InternalPage, set_index_key_at}
use oxtub.BTree.Keys.{Entry, Rid}
use oxtub.BTree.Leaf.Defs.{
  LeafPage, curr_size, live_size, min_size, insert_at, remove_at, insert_nth, remove_nth,
  remove_all_tombstones, live_from,
}
use oxtub.BTree.Leaf.Invariant.{LeafInv, Marks, Unique, length-live}
use oxtub.BTree.Leaf.Live.{live, remove_all_tombstones-live}
use oxtub.BTree.Leaf.Tombs.{live_from_none}
use oxtub.BTree.Pair.Separator.{SeparatorAt, set_index_key_at-SeparatorAt}
use oxtub.BTree.Pair.Defs.{borrow_from_right, borrow_from_left, rebalance, redistribute_leaf_pair}

module _ {K : Type 0} where
  insert_nth_end : (e : Entry K) (es : List (Entry K)) → insert_nth (length es) e es ≡ es ++ e ∷ []
  insert_nth_end e [] = refl
  insert_nth_end e (x ∷ es) = ap (◌∷◌ x) (insert_nth_end e es)

  -- The last entry and the others.
  abbrev Last : ℕ → List (Entry K) → Type 0
  Last n es = (e : Entry K) × (get_elem? es n ≡ some e) × (remove_nth n es ++ e ∷ [] ≡ es)

  Last-entry : (n : ℕ) (es : List (Entry K)) → length es ≡ suc n → Last n es
  Last-entry n [] h = absurd (omega arith)
  Last-entry zero (x ∷ []) h = (x, refl, refl)
  Last-entry zero (x ∷ y ∷ es) h = absurd (omega arith)
  Last-entry (suc n) (x ∷ es) h =
      let (e, at, parts) = Last-entry n es (omega arith) in (e, at, ap (◌∷◌ x) parts)

  first_entry :
      (es : List (Entry K))
      → 0 < length es
      → (k : K) × (rid : Rid) × (rest : List (Entry K)) × (es ≡ (k, rid) ∷ rest)
  first_entry [] h = absurd (omega arith)
  first_entry ((k, rid) ∷ es) h = (k, rid, es, refl)

  -- What moves between two leaves without tombstones leave.
  record Moved (left right l r : LeafPage K) : Type 0 where
    entries : l.entries ++ r.entries ≡ left.entries ++ right.entries
    left_clean : l.tombstones ≡ []
    right_clean : r.tombstones ≡ []
    left_max : l.max_size ≡ left.max_size
    right_max : r.max_size ≡ right.max_size

  right_step :
      (n : ℕ) (left right : LeafPage K) (k : K) (rid : Rid) (es : List (Entry K))
      → right.entries ≡ (k, rid) ∷ es
      → left.tombstones ≡ []
      → right.tombstones ≡ []
      → curr_size left < left.max_size
      → borrow_from_right (suc n) left right
        ≡ borrow_from_right n
            (record left { entries = left.entries ++ (k, rid) ∷ []; tombstones = [] })
            (record right { entries = es; tombstones = [] })
  unfolding borrow_from_right insert_at remove_at
  right_step n left right k rid es e c c' room =
      let inside : leb (curr_size left) (curr_size left) ≡ true = ground arith in
      let free : ltb (curr_size left) left.max_size ≡ true = ground arith in
      let there : ltb 0 (suc (length es)) ≡ true = ground arith in
      simp (e, c, c', inside, free, there, insert_nth_end (k, rid) left.entries)

  left_step :
      (n : ℕ) (left right : LeafPage K) (k : K) (rid : Rid)
      → get_elem? left.entries (curr_size left - 1) ≡ some (k, rid)
      → left.tombstones ≡ []
      → right.tombstones ≡ []
      → 0 < curr_size left
      → curr_size right < right.max_size
      → borrow_from_left (suc n) left right
        ≡ borrow_from_left n
            (record left {
              entries = remove_nth (curr_size left - 1) left.entries;
              tombstones = [];
            })
            (record right { entries = (k, rid) ∷ right.entries; tombstones = [] })
  unfolding borrow_from_left insert_at remove_at
  left_step n left right k rid e c c' some_left room =
      let free : ltb (curr_size right) right.max_size ≡ true = ground arith in
      let start : leb 0 (curr_size right) ≡ true = ground arith in
      let inside : ltb (curr_size left - 1) (curr_size left) ≡ true = ground arith in
      simp (e, c, c', inside, free, start)

  borrow_from_right_runs :
      (n : ℕ) (left right : LeafPage K)
      → left.tombstones ≡ []
      → right.tombstones ≡ []
      → n ≤ curr_size right
      → curr_size left + n ≤ left.max_size
      → (l : LeafPage K) × (r : LeafPage K) × (borrow_from_right n left right ≡ some (l, r))
        × Moved left right l r
        × (curr_size l ≡ curr_size left + n)
        × (curr_size r + n ≡ curr_size right)
  unfolding borrow_from_right
  borrow_from_right_runs zero left right c c' h room = (
    left,
    right,
    refl,
    record { entries = refl; left_clean = c; right_clean = c'; left_max = refl; right_max = refl },
    omega arith,
    omega arith,
  )
  borrow_from_right_runs (suc n) left right c c' h room =
      let (k, rid, es, e) = first_entry right.entries (omega arith) in
      let left' = record left { entries = left.entries ++ (k, rid) ∷ []; tombstones = [] } in
      let right' = record right { entries = es; tombstones = [] } in
      let grown = length-append left.entries ((k, rid) ∷ []) in
      let (l, r, runs, moved, sl, sr) =
        borrow_from_right_runs n left' right' refl refl (omega (arith, ap length e))
          (omega (arith, grown)) in
      (
        l,
        r,
        right_step n left right k rid es e c c' (omega arith) ∙ runs,
        record {
          entries =
              moved.entries
              ∙ append_assoc left.entries ((k, rid) ∷ []) es
              ∙ ap (λ x. left.entries ++ x) (sym e);
          left_clean = moved.left_clean;
          right_clean = moved.right_clean;
          left_max = moved.left_max;
          right_max = moved.right_max;
        },
        omega (arith, sl, grown),
        omega (arith, sr, ap length e),
      )

  borrow_from_left_runs :
      (n : ℕ) (left right : LeafPage K)
      → left.tombstones ≡ []
      → right.tombstones ≡ []
      → n ≤ curr_size left
      → curr_size right + n ≤ right.max_size
      → (l : LeafPage K) × (r : LeafPage K) × (borrow_from_left n left right ≡ some (l, r))
        × Moved left right l r
        × (curr_size l + n ≡ curr_size left)
        × (curr_size r ≡ curr_size right + n)
  unfolding borrow_from_left
  borrow_from_left_runs zero left right c c' h room = (
    left,
    right,
    refl,
    record { entries = refl; left_clean = c; right_clean = c'; left_max = refl; right_max = refl },
    omega arith,
    omega arith,
  )
  borrow_from_left_runs (suc n) left right c c' h room =
      let ((k, rid), at, parts) = Last-entry (curr_size left - 1) left.entries (omega arith) in
      let shorter = remove_nth (curr_size left - 1) left.entries in
      let left' = record left { entries = shorter; tombstones = [] } in
      let right' = record right { entries = (k, rid) ∷ right.entries; tombstones = [] } in
      let size = length-append shorter ((k, rid) ∷ []) in
      let whole = ap length parts in
      let (l, r, runs, moved, sl, sr) =
        borrow_from_left_runs n left' right' refl refl (omega (arith, size, whole)) (omega arith) in
      (
        l,
        r,
        left_step n left right k rid at c c' (omega arith) (omega arith) ∙ runs,
        record {
          entries =
              moved.entries
              ∙ sym (append_assoc shorter ((k, rid) ∷ []) right.entries)
              ∙ ap (λ y. y ++ right.entries) parts;
          left_clean = moved.left_clean;
          right_clean = moved.right_clean;
          left_max = moved.left_max;
          right_max = moved.right_max;
        },
        omega (arith, sl, size, whole),
        omega (arith, sr),
      )

  rebalance_right :
      (left right : LeafPage K)
      → curr_size left < min_size left
      → min_size right + (min_size left - curr_size left) ≤ curr_size right
      → rebalance left right ≡ borrow_from_right (min_size left - curr_size left) left right
  unfolding rebalance
  rebalance_right left right h enough =
      let short : ltb (curr_size left) (min_size left) ≡ true = ground arith in
      let c : leb (min_size right + (min_size left - curr_size left)) (curr_size right) ≡ true =
        ground arith in
      simp (short, c)

  rebalance_left :
      (left right : LeafPage K)
      → min_size left ≤ curr_size left
      → curr_size right < min_size right
      → min_size left + (min_size right - curr_size right) ≤ curr_size left
      → rebalance left right ≡ borrow_from_left (min_size right - curr_size right) left right
  unfolding rebalance
  rebalance_left left right large h enough =
      let not_short : ltb (curr_size left) (min_size left) ≡ false = ground arith in
      let short : ltb (curr_size right) (min_size right) ≡ true = ground arith in
      let c : leb (min_size left + (min_size right - curr_size right)) (curr_size left) ≡ true =
        ground arith in
      simp (not_short, short, c)

  -- Both leaves at least half full, with the same entries.
  abbrev Balanced : LeafPage K → LeafPage K → Type 0
  Balanced left right =
      (l : LeafPage K) × (r : LeafPage K) × (rebalance left right ≡ some (l, r))
      × Moved left right l r
      × (min_size left ≤ curr_size l)
      × (min_size left ≤ curr_size r)
      × (curr_size l + curr_size r ≤ curr_size left + curr_size right)
      × (curr_size l ≤ left.max_size)
      × (curr_size r ≤ left.max_size)

  rebalance_runs :
      (left right : LeafPage K)
      → left.tombstones ≡ []
      → right.tombstones ≡ []
      → left.max_size ≡ right.max_size
      → curr_size left ≤ left.max_size
      → curr_size right ≤ right.max_size
      → left.max_size < curr_size left + curr_size right
      → (curr_size left < min_size left) ⊎ (curr_size right < min_size right)
      → Balanced left right
  rebalance_runs left right c c' same fl fr large (inl short) =
      let n = min_size left - curr_size left in
      let (l, r, runs, moved, sl, sr) =
        borrow_from_right_runs n left right c c' (omega arith) (omega arith) in
      (
        l,
        r,
        rebalance_right left right short (omega arith) ∙ runs,
        moved,
        omega (arith, sl),
        omega (arith, sr),
        omega (arith, sl, sr),
        omega (arith, sl),
        omega (arith, sr),
      )
  rebalance_runs left right c c' same fl fr large (inr short) =
      let n = min_size right - curr_size right in
      let (l, r, runs, moved, sl, sr) =
        borrow_from_left_runs n left right c c' (omega arith) (omega arith) in
      (
        l,
        r,
        rebalance_left left right (omega arith) short (omega arith) ∙ runs,
        moved,
        omega (arith, sl),
        omega (arith, sr),
        omega (arith, sl, sr),
        omega (arith, sl),
        omega (arith, sr),
      )

  clean-live : (p : LeafPage K) → p.tombstones ≡ [] → live p ≡ p.entries
  unfolding live
  clean-live p e = ap (λ ts. live_from 0 ts p.entries) e ∙ live_from_none 0 p.entries

  clean-LeafInv :
      (cap : ℕ) (p : LeafPage K) → p.tombstones ≡ [] → curr_size p ≤ p.max_size → LeafInv cap p
  clean-LeafInv cap p e h = record {
    fits = h;
    capped = omega (arith, ap length e);
    marks = subst (Marks (length p.entries)) (sym e) tt;
    unique = subst Unique (sym e) tt;
  }

  remove_all-max : (p : LeafPage K) → (remove_all_tombstones p).max_size ≡ p.max_size
  unfolding remove_all_tombstones
  remove_all-max p = ground arith

  redistribute_steps :
      (parent parent' : InternalPage K) (left right l r : LeafPage K) (right_idx : ℕ) (k : K)
      (rid : Rid) (rest : List (Entry K))
      → left.max_size < live_size left + live_size right
      → rebalance (remove_all_tombstones left) (remove_all_tombstones right) ≡ some (l, r)
      → r.entries ≡ (k, rid) ∷ rest
      → set_index_key_at parent right_idx k rid ≡ some parent'
      → redistribute_leaf_pair parent left right right_idx ≡ some (parent', l, r)
  unfolding redistribute_leaf_pair
  redistribute_steps parent parent' left right l r right_idx k rid rest large runs first written =
      let c₁ : ltb left.max_size (live_size left + live_size right) ≡ true = ground arith in
      simp (c₁, runs, first, written)

  -- `redistribute_leaf_pair` returns on two well-formed leaves of one size, of at least 2, that have
  -- too many live entries to be merged and of which one has fewer than half its size, if `right_idx`
  -- is a slot of the parent and the parent has no more slots than its size: the two leaves are then
  -- well formed and have the same live entries in the same order, each at least half its size of them;
  -- in the parent the separator of slot `right_idx` is the first entry of the right leaf, the slot
  -- keeps its child, and nothing else changes.
  pub redistribute_leaf_pair-live :
      (cap : ℕ) (parent : InternalPage K) (left right : LeafPage K) (right_idx : ℕ)
      → LeafInv cap left
      → LeafInv cap right
      → left.max_size ≡ right.max_size
      → 2 ≤ left.max_size
      → left.max_size < live_size left + live_size right
      → (live_size left < min_size left) ⊎ (live_size right < min_size right)
      → right_idx < length parent.slots
      → length parent.slots ≤ parent.max_size
      → (slots : List (Entry K × ℕ)) × (e : Entry K) × (l : LeafPage K) × (r : LeafPage K)
        × (redistribute_leaf_pair parent left right right_idx
            ≡ some (record parent { slots = slots }, l, r))
        × SeparatorAt right_idx e parent.slots slots
        × LeafInv cap l
        × LeafInv cap r
        × (live l ++ live r ≡ live left ++ live right)
        × (min_size left ≤ live_size l)
        × (min_size right ≤ live_size r)
        × (get_elem? r.entries 0 ≡ some e)
  unfolding live
  redistribute_leaf_pair-live cap parent left right right_idx v w same two large short inside
        filled =
      let p = remove_all_tombstones left in
      let q = remove_all_tombstones right in
      let (pv, _, pe, pt) = remove_all_tombstones-live cap left v in
      let (qv, _, qe, qt) = remove_all_tombstones-live cap right w in
      let lp : curr_size p ≡ live_size left = ap length pe ∙ length-live cap left v in
      let lq : curr_size q ≡ live_size right = ap length qe ∙ length-live cap right w in
      let mp = remove_all-max left in
      let mq = remove_all-max right in
      let (l, r, runs, moved, hl, hr, _, fl, fr) =
        rebalance_runs p q pt qt (mp ∙ same ∙ sym mq) pv.fits qv.fits (omega (arith, lp, lq, mp))
          (elim short [
            | inl h ↦ inl (omega (arith, lp, mp))
            | inr h ↦ inr (omega (arith, lq, mq))
          ]) in
      let (k, rid, rest, first) = first_entry r.entries (omega (arith, hr, mp)) in
      let (slots, written, at) =
        set_index_key_at-SeparatorAt parent right_idx k rid inside filled in
      (
        slots,
        (k, rid),
        l,
        r,
        redistribute_steps parent (record parent { slots = slots }) left right l r right_idx k rid
            rest large runs first written,
        at,
        clean-LeafInv cap l moved.left_clean (omega (arith, fl, moved.left_max)),
        clean-LeafInv cap r moved.right_clean (omega (arith, fr, moved.right_max, mp, mq)),
        ap₂ ◌++◌ (clean-live l moved.left_clean) (clean-live r moved.right_clean)
            ∙ moved.entries
            ∙ ap₂ ◌++◌ pe qe,
        omega (arith, hl, mp, ap length moved.left_clean),
        omega (arith, hr, mp, ap length moved.right_clean),
        ap (λ es. get_elem? es 0) first,
      )
