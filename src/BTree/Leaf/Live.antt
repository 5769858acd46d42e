-- ===== src/BTree/Leaf/Live.antt =====
-- What each operation of src/storage/page/b_tree_leaf_page.rs does to a well-formed page and to its
-- live entries.
use oxtub.Base.{
  ℕ, suc, ◌≤◌, ◌<◌, ◌≡◌, refl, ap, sym, ◌∙◌, subst, true, false, some, List, [], ◌∷◌, ◌++◌,
  if◌then◌else◌, length, take, drop, arith, ==_refl, get_elem?, length-append, All-append,
}
use oxtub.BTree.Keys.{Entry, Rid}
use oxtub.BTree.Leaf.Defs.{
  LeafPage, insert_nth, remove_nth, contains, shift_up, shift_down, without, live_from, curr_size,
  insert_at, remove_at, add_tombstone, evict_oldest_tombstone, remove_tombstone_at,
  remove_all_tombstones,
}
use oxtub.BTree.Leaf.Invariant.{
  LeafInv, Marks, length-live, Unique, shift_up-Marks, shift_up-length, shift_up-Unique,
  shift_down-Marks, shift_down-length_le, shift_down-length, shift_down-Unique, without-Marks,
  without-length_le, without-Unique, append-Unique, insert_nth-length, remove_nth-length,
}
use oxtub.BTree.Leaf.Tombs

shift_down_head :
    (t : ℕ) (ts : List ℕ) → contains t ts ≡ false → length (shift_down t (t ∷ ts)) ≡ length ts
shift_down_head t ts c = ground (arith, shift_down-length t ts c)

module _ {K : Type 0} where
  -- The entries that a lookup sees, in the order of their slots.
  unfoldable pub live : LeafPage K → List (Entry K)
  live p = live_from 0 p.tombstones p.entries

  -- Those in the slots before `idx`, and those from `idx` on.
  unfoldable pub live_before : ℕ → LeafPage K → List (Entry K)
  live_before idx p = live_from 0 p.tombstones (take idx p.entries)

  unfoldable pub live_from_slot : ℕ → LeafPage K → List (Entry K)
  live_from_slot idx p = live_from idx p.tombstones (drop idx p.entries)

  pub live-split :
      (p : LeafPage K) (idx : ℕ)
      → idx ≤ curr_size p
      → live p ≡ live_before idx p ++ live_from_slot idx p
  unfolding live live_before live_from_slot
  live-split p idx h =
      ap (live_from 0 p.tombstones) (sym (Tombs.take-drop idx p.entries))
      ∙ Tombs.live_from-append 0 p.tombstones (take idx p.entries) (drop idx p.entries)
      ∙ ap (λ n. live_before idx p ++ live_from n p.tombstones (drop idx p.entries))
          (omega (arith, Tombs.length-take idx p.entries h))

  -- `insert_at` returns on every page with room, at every slot up to the first free one: the page
  -- stays well formed, and the new entry is live between the live entries of the slots before it
  -- and those behind it.
  pub insert_at-live :
      (cap : ℕ) (p : LeafPage K) (idx : ℕ) (key : K) (rid : Rid)
      → LeafInv cap p
      → idx ≤ curr_size p
      → curr_size p < p.max_size
      → (q : LeafPage K) × (insert_at p idx key rid ≡ some q)
        × LeafInv cap q
        × (live q ≡ live_before idx p ++ (key, rid) ∷ live_from_slot idx p)
  unfolding insert_at live live_before live_from_slot
  insert_at-live cap p idx key rid v h room = (
    record p {
      tombstones = shift_up idx p.tombstones;
      entries = insert_nth idx (key, rid) p.entries;
    },
    ground arith,
    record {
      fits = omega (arith, insert_nth-length idx (key, rid) p.entries);
      capped = omega (arith, shift_up-length idx p.tombstones, v.capped);
      marks =
          subst (λ n. Marks n (shift_up idx p.tombstones))
            (sym (insert_nth-length idx (key, rid) p.entries))
            (shift_up-Marks idx (length p.entries) p.tombstones v.marks);
      unique = shift_up-Unique idx p.tombstones v.unique;
    },
    Tombs.live_from-insert_nth idx p.tombstones (key, rid) p.entries h,
  )

  -- The live entries around slot `idx`, whose entry is `e`.
  pub live-slot :
      (p : LeafPage K) (idx : ℕ) (e : Entry K)
      → get_elem? p.entries idx ≡ some e
      → live p
        ≡ live_before idx p
          ++ (if contains idx p.tombstones
              then live_from_slot (suc idx) p
              else e ∷ live_from_slot (suc idx) p)
  unfolding live_from_slot
  live-slot p idx e h =
      let less = Tombs.slot_lt idx p.entries e h in
      live-split p idx (omega arith)
      ∙ ap (◌++◌ (live_before idx p)) (Tombs.live_from-slot idx p.tombstones p.entries e h)

  -- A slot with a tombstone adds nothing.
  live-tombstoned :
      (p : LeafPage K) (idx : ℕ)
      → idx < curr_size p
      → contains idx p.tombstones ≡ true
      → live p ≡ live_before idx p ++ live_from_slot (suc idx) p
  live-tombstoned p idx h c =
      let (e, at) = Tombs.get_elem?_of_lt idx p.entries h in rw c at (live-slot p idx e at)

  -- `remove_at` returns at every slot in use: the page stays well formed and loses this entry only,
  -- live or not.
  pub remove_at-live :
      (cap : ℕ) (p : LeafPage K) (idx : ℕ)
      → LeafInv cap p
      → idx < curr_size p
      → (q : LeafPage K) × (remove_at p idx ≡ some q)
        × LeafInv cap q
        × (live q ≡ live_before idx p ++ live_from_slot (suc idx) p)
        × (suc (curr_size q) ≡ curr_size p)
        × (q.tombstones ≡ shift_down idx p.tombstones)
        × (q.max_size ≡ p.max_size)
  unfolding remove_at live live_before live_from_slot
  remove_at-live cap p idx v h =
      let sizes = remove_nth-length idx p.entries h in
      (
        record p { entries = remove_nth idx p.entries; tombstones = shift_down idx p.tombstones },
        ground arith,
        record {
          fits = omega (arith, sizes);
          capped = omega (arith, shift_down-length_le idx p.tombstones, v.capped);
          marks =
              shift_down-Marks idx (length (remove_nth idx p.entries)) p.tombstones
                (omega (arith, sizes)) (subst (λ n. Marks n p.tombstones) (sym sizes) v.marks);
          unique = shift_down-Unique idx p.tombstones v.unique;
        },
        Tombs.live_from-remove_nth idx p.tombstones p.entries (omega arith),
        sizes,
        refl,
        refl,
      )

  evict_of :
      (p q : LeafPage K) (t : ℕ) (ts : List ℕ)
      → p.tombstones ≡ t ∷ ts
      → remove_at p t ≡ some q
      → evict_oldest_tombstone p ≡ some (t, q)
  unfolding evict_oldest_tombstone
  evict_of p q t ts e at = simp (e, at)

  -- `evict_oldest_tombstone` returns on every well-formed page with a tombstone: it drops one slot
  -- and one tombstone, and the live entries stay as they are.
  pub evict_oldest_tombstone-live :
      (cap : ℕ) (p : LeafPage K)
      → LeafInv cap p
      → 0 < length p.tombstones
      → (t : ℕ) × (q : LeafPage K) × (evict_oldest_tombstone p ≡ some (t, q))
        × LeafInv cap q
        × (live q ≡ live p)
        × (suc (curr_size q) ≡ curr_size p)
        × (suc (length q.tombstones) ≡ length p.tombstones)
        × (q.max_size ≡ p.max_size)
  evict_oldest_tombstone-live cap p v h = go p.tombstones refl
    where
      go :
          (ts : List ℕ)
          → p.tombstones ≡ ts
          → (t : ℕ) × (q : LeafPage K) × (evict_oldest_tombstone p ≡ some (t, q))
            × LeafInv cap q
            × (live q ≡ live p)
            × (suc (curr_size q) ≡ curr_size p)
            × (suc (length q.tombstones) ≡ length p.tombstones)
            × (q.max_size ≡ p.max_size)
      go [] e = absurd (omega (arith, ap length e))
      go (t ∷ ts) e =
          let marks = subst (Marks (length p.entries)) e v.marks in
          let unique = subst Unique e v.unique in
          let (q, at, inv, same, sizes, tombs, largest) = remove_at-live cap p t v marks.0 in
          let here : contains t p.tombstones ≡ true =
            subst (λ x. contains t x ≡ true) (sym e) (rw (==_refl t)) in
          let count : length q.tombstones ≡ length ts =
            ap length (tombs ∙ ap (shift_down t) e) ∙ shift_down_head t ts unique.0 in
          (
            t,
            q,
            evict_of p q t ts e at,
            inv,
            same ∙ sym (live-tombstoned p t marks.0 here),
            sizes,
            omega (arith, count, ap length e),
            largest,
          )

  live-mark :
      (idx : ℕ) (ts : List ℕ) (es : List (Entry K))
      → idx < length es
      → live_from 0 (ts ++ idx ∷ []) es
        ≡ live_from 0 ts (take idx es) ++ live_from (suc idx) ts (drop (suc idx) es)
  live-mark idx ts es h =
      let (e, at) = Tombs.get_elem?_of_lt idx es h in
      let here : contains idx (ts ++ idx ∷ []) ≡ true =
        ground (arith, Tombs.contains-append idx ts (idx ∷ [])) in
      rw here at (
        Tombs.live_from-around idx ts (ts ++ idx ∷ []) es e at
          (λ j ne. ground (arith, Tombs.contains-append j ts (idx ∷ []))))

  live-unmark :
      (idx : ℕ) (ts : List ℕ) (es : List (Entry K)) (e : Entry K)
      → get_elem? es idx ≡ some e
      → live_from 0 (without idx ts) es
        ≡ live_from 0 ts (take idx es) ++ e ∷ live_from (suc idx) ts (drop (suc idx) es)
  live-unmark idx ts es e at =
      let here : contains idx (without idx ts) ≡ false =
        ground (arith, Tombs.contains-without idx idx ts) in
      rw here at (
        Tombs.live_from-around idx ts (without idx ts) es e at
          (λ j ne. ground (arith, Tombs.contains-without j idx ts)))

  -- `add_tombstone` returns at every live slot while there is room for a tombstone: the page stays
  -- well formed and loses this live entry only, with its slot kept.
  pub add_tombstone-live :
      (cap : ℕ) (p : LeafPage K) (idx : ℕ)
      → LeafInv cap p
      → idx < curr_size p
      → length p.tombstones < cap
      → contains idx p.tombstones ≡ false
      → (q : LeafPage K) × (add_tombstone cap p idx ≡ some q)
        × LeafInv cap q
        × (live q ≡ live_before idx p ++ live_from_slot (suc idx) p)
        × (q.entries ≡ p.entries)
  unfolding add_tombstone live live_before live_from_slot
  add_tombstone-live cap p idx v h room c = (
    record p { tombstones = p.tombstones ++ idx ∷ [] },
    ground arith,
    record {
      fits = v.fits;
      capped = omega (arith, length-append p.tombstones (idx ∷ []));
      marks = All-append (λ t. t < length p.entries) p.tombstones (idx ∷ []) v.marks (omega arith);
      unique = append-Unique p.tombstones idx v.unique c;
    },
    live-mark idx p.tombstones p.entries h,
    refl,
  )

  -- `remove_tombstone_at` brings the entry of a slot back to life, between the live entries of the
  -- slots before it and those behind it.
  pub remove_tombstone_at-live :
      (cap : ℕ) (p : LeafPage K) (idx : ℕ) (e : Entry K)
      → LeafInv cap p
      → get_elem? p.entries idx ≡ some e
      → (q : LeafPage K) × (remove_tombstone_at p idx ≡ some q)
        × LeafInv cap q
        × (live q ≡ live_before idx p ++ e ∷ live_from_slot (suc idx) p)
        × (q.entries ≡ p.entries)
  unfolding remove_tombstone_at live live_before live_from_slot
  remove_tombstone_at-live cap p idx e v at =
      let h = Tombs.slot_lt idx p.entries e at in
      (
        record p { tombstones = without idx p.tombstones },
        ground arith,
        record {
          fits = v.fits;
          capped = omega (arith, without-length_le idx p.tombstones, v.capped);
          marks = without-Marks idx (length p.entries) p.tombstones v.marks;
          unique = without-Unique idx p.tombstones v.unique;
        },
        live-unmark idx p.tombstones p.entries e at,
        refl,
      )

  remove_all_none : (p : LeafPage K) → p.tombstones ≡ [] → remove_all_tombstones p ≡ p
  unfolding remove_all_tombstones
  remove_all_none p e = ground (arith, ap length e)

  remove_all_some :
      (p : LeafPage K) (t : ℕ) (ts : List ℕ)
      → p.tombstones ≡ t ∷ ts
      → remove_all_tombstones p
        ≡ record p { entries = live_from 0 p.tombstones p.entries; tombstones = [] }
  unfolding remove_all_tombstones
  remove_all_some p t ts e = ground (arith, ap length e)

  -- `remove_all_tombstones` leaves a well-formed page without tombstones, whose entries are the
  -- live ones.
  pub remove_all_tombstones-live :
      (cap : ℕ) (p : LeafPage K)
      → LeafInv cap p
      → LeafInv cap (remove_all_tombstones p)
        × (live (remove_all_tombstones p) ≡ live p)
        × ((remove_all_tombstones p).entries ≡ live p)
        × ((remove_all_tombstones p).tombstones ≡ [])
  unfolding live
  remove_all_tombstones-live cap p v = go p.tombstones refl
    where
      go :
          (ts : List ℕ)
          → p.tombstones ≡ ts
          → LeafInv cap (remove_all_tombstones p)
            × (live (remove_all_tombstones p) ≡ live p)
            × ((remove_all_tombstones p).entries ≡ live p)
            × ((remove_all_tombstones p).tombstones ≡ [])
      go [] e =
          rw (remove_all_none p e) (
            v,
            refl,
            sym (ap (λ x. live_from 0 x p.entries) e ∙ Tombs.live_from_none 0 p.entries),
            e,
          )
      go (t ∷ ts) e = rw (remove_all_some p t ts e) (
        record {
          fits = omega (arith, length-live cap p v, v.fits);
          capped = omega arith;
          marks = tt;
          unique = tt;
        },
        Tombs.live_from_none 0 (live_from 0 p.tombstones p.entries),
        refl,
        refl,
      )
