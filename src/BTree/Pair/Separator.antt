-- ===== src/BTree/Pair/Separator.antt =====
-- The separator that src/storage/index/b_tree.rs writes into the parent of two leaves.
use oxtub.Base.{
  ℕ, zero, suc, ◌≤◌, ◌<◌, ◌≡◌, ◌≢◌, refl, true, some, List, [], ◌∷◌, ltb, length, get_elem?, arith,
}
use oxtub.BTree.Internal.{InternalPage, set_index_key_at, write_separator}
use oxtub.BTree.Keys.{Entry, Rid}

module _ {K : Type 0} where
  -- The slot `idx` has the separator `e` and keeps its child; the other slots are as they were.
  abbrev pub SeparatorAt : ℕ → Entry K → List (Entry K × ℕ) → List (Entry K × ℕ) → Type 0
  SeparatorAt idx e slots slots' =
      ((old : Entry K) × (child : ℕ) × (get_elem? slots idx ≡ some (old, child))
        × (get_elem? slots' idx ≡ some (e, child)))
      × (length slots' ≡ length slots)
      × ((j : ℕ) → idx ≢ j → get_elem? slots' j ≡ get_elem? slots j)

  write_separator-SeparatorAt :
      (idx : ℕ) (e : Entry K) (slots : List (Entry K × ℕ))
      → idx < length slots
      → SeparatorAt idx e slots (write_separator idx e slots)
  write_separator-SeparatorAt idx e [] h = absurd (omega arith)
  write_separator-SeparatorAt zero e ((old, child) ∷ slots) h =
      ((old, child, refl, refl), refl, other)
    where
      other :
          (j : ℕ) → 0 ≢ j → get_elem? ((e, child) ∷ slots) j ≡ get_elem? ((old, child) ∷ slots) j
      other zero ne = absurd (ne refl)
      other (suc j) ne = refl
  write_separator-SeparatorAt (suc idx) e (slot ∷ slots) h =
      let (here, size, others) = write_separator-SeparatorAt idx e slots (omega arith) in
      (here, omega (arith, size), there others)
    where
      there :
          ((j : ℕ) → idx ≢ j → get_elem? (write_separator idx e slots) j ≡ get_elem? slots j)
          → (j : ℕ) → suc idx ≢ j
          → get_elem? (slot ∷ write_separator idx e slots) j ≡ get_elem? (slot ∷ slots) j
      there others zero ne = refl
      there others (suc j) ne = others j (λ e'. ne (omega (arith, e')))

  pub set_index_key_at-SeparatorAt :
      (p : InternalPage K) (idx : ℕ) (key : K) (rid : Rid)
      → idx < length p.slots
      → length p.slots ≤ p.max_size
      → (slots : List (Entry K × ℕ)) × (set_index_key_at p idx key rid
          ≡ some (record p { slots = slots }))
        × SeparatorAt idx (key, rid) p.slots slots
  unfolding set_index_key_at
  set_index_key_at-SeparatorAt p idx key rid h fits =
      let c₁ : ltb idx p.max_size ≡ true = ground arith in
      let c₂ : ltb idx (length p.slots) ≡ true = ground arith in
      (
        write_separator idx (key, rid) p.slots,
        simp (c₁, c₂),
        write_separator-SeparatorAt idx (key, rid) p.slots h,
      )
