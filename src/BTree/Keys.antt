-- ===== src/BTree/Keys.antt =====
-- Keys, record identifiers and their order: src/storage/rid.rs, src/storage/index/comparator.rs and
-- `compare_rid` of src/storage/page/b_tree_leaf_page.rs.
use oxtub.Base.{ℕ, ◌≡◌, compare, Ordering, Bool, true, false}

-- `_reserved` is always 0.
pub record Rid : Type 0 where
  pub page_id : ℕ
  pub slot_id : ℕ

-- `Ordering::then_with`
abbrev pub then_with : Ordering → Ordering → Ordering
then_with Ordering.eq second = second
then_with Ordering.lt second = Ordering.lt
then_with Ordering.gt second = Ordering.gt

unfoldable pub compare_rid : Rid → Rid → Ordering
compare_rid a b = then_with (compare a.page_id b.page_id) (compare a.slot_id b.slot_id)

-- The trait `KeyComparator`, and what an order has to satisfy.
pub record KeyComparator (K : Type 0) : Type 0 where
  pub cmp : K → K → Ordering
  pub cmp_refl : (a : K) → cmp a a ≡ Ordering.eq
  pub eq_of_cmp : (a b : K) → cmp a b ≡ Ordering.eq → a ≡ b
  pub lt_of_gt : (a b : K) → cmp a b ≡ Ordering.gt → cmp b a ≡ Ordering.lt
  pub gt_of_lt : (a b : K) → cmp a b ≡ Ordering.lt → cmp b a ≡ Ordering.gt
  pub lt_trans : (a b c : K) → cmp a b ≡ Ordering.lt → cmp b c ≡ Ordering.lt → cmp a c ≡ Ordering.lt

-- The full index key, by which leaves are sorted.
abbrev pub Entry : Type 0 → Type 0
Entry K = K × Rid

abbrev pub cmp_entry : {K : Type 0} → KeyComparator K → Entry K → Entry K → Ordering
cmp_entry c (k, r) (k', r') = then_with (c.cmp k k') (compare_rid r r')

abbrev pub is_lt : Ordering → Bool
is_lt Ordering.lt = true
is_lt Ordering.eq = false
is_lt Ordering.gt = false

abbrev pub is_le : Ordering → Bool
is_le Ordering.lt = true
is_le Ordering.eq = true
is_le Ordering.gt = false

abbrev pub is_eq : Ordering → Bool
is_eq Ordering.lt = false
is_eq Ordering.eq = true
is_eq Ordering.gt = false
