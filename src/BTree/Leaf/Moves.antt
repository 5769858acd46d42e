-- ===== src/BTree/Leaf/Moves.antt =====
-- Entries that move between leaf pages: `move_split_entries_to` and `coalesce_right_into_page` of
-- src/storage/page/b_tree_leaf_page.rs.
use oxtub.Base.{
  ℕ, zero, suc, ◌+◌, ◌≤◌, ◌<◌, ◌≡◌, refl, ap, ap₂, sym, ◌∙◌, subst, true, some, List, [], ◌∷◌, ◌++◌,
  ltb, leb, length, take, drop, arith, All-append, length-append,
}
use mathlib.Core.List.{append-nil, append_assoc}
use oxtub.BTree.Keys.{Entry}
use oxtub.BTree.Leaf.Defs.{
  LeafPage, contains, curr_size, live_from, below, add_to_all, write_entries, move_split_entries_to,
  add_tombstone, add_tombstones, coalesce_right_into_page,
}
use oxtub.BTree.Leaf.Invariant.{
  LeafInv, Unique, Marks, Marks-mono, below-Marks, below-length_le, below-Unique,
}
use oxtub.BTree.Leaf.Live.{live, live_before, live_from_slot, live-split}
use oxtub.BTree.Leaf.Tombs

add_to_all-length : (n : ℕ) (ts : List ℕ) → length (add_to_all n ts) ≡ length ts
add_to_all-length n [] = refl
add_to_all-length n (t ∷ ts) = omega (arith, add_to_all-length n ts)

add_to_all-Marks : (n m : ℕ) (ts : List ℕ) → Marks m ts → Marks (n + m) (add_to_all n ts)
add_to_all-Marks n m [] a = tt
add_to_all-Marks n m (t ∷ ts) a = (omega arith, add_to_all-Marks n m ts a.1)

contains-add_to_all_shift :
    (t n : ℕ) (ts : List ℕ) → contains (t + n) (add_to_all n ts) ≡ contains t ts
contains-add_to_all_shift t n [] = refl
contains-add_to_all_shift t n (s ∷ ts) = ground (arith, contains-add_to_all_shift t n ts)

-- The tombstones of a page and the shifted ones of its right neighbour.
merged-Unique :
    (n : ℕ) (ss ts : List ℕ) → Marks n ss → Unique ss → Unique ts → Unique (ss ++ add_to_all n ts)
merged-Unique n [] [] m u w = tt
merged-Unique n [] (t ∷ ts) m u w =
    (contains-add_to_all_shift t n ts ∙ w.0, merged-Unique n [] ts m u w.1)
merged-Unique n (s ∷ ss) ts m u w = (
  ground (arith, Tombs.contains-append s ss (add_to_all n ts), Tombs.contains-add_to_all_lt s n ts),
  merged-Unique n ss ts m.1 u.1 w,
)

module _ {K : Type 0} where
  write_entries-append :
      (max_size : ℕ) (out es : List (Entry K))
      → length out + length es ≤ max_size
      → write_entries max_size out es ≡ some (out ++ es)
  write_entries-append max_size out [] h = ap some (sym (append-nil out))
  write_entries-append max_size out (e ∷ es) h =
      let rest =
        write_entries-append max_size (out ++ e ∷ []) es
          (omega (arith, length-append out (e ∷ []))) in
      let room : ltb (length out) max_size ≡ true = ground arith in
      rw room (rest ∙ ap some (append_assoc out (e ∷ []) es))

  add_tombstones-append :
      (cap : ℕ) (p : LeafPage K) (ts : List ℕ)
      → length p.tombstones + length ts ≤ cap
      → Marks (length p.entries) ts
      → add_tombstones cap p ts ≡ some (record p { tombstones = p.tombstones ++ ts })
  unfolding add_tombstone
  add_tombstones-append cap p [] h m =
      ap (λ x. some (record p { tombstones = x })) (sym (append-nil p.tombstones))
  add_tombstones-append cap p (t ∷ ts) h m =
      let q = record p { tombstones = p.tombstones ++ t ∷ [] } in
      let rest =
        add_tombstones-append cap q ts (omega (arith, length-append p.tombstones (t ∷ []))) m.1 in
      let first : add_tombstone cap p t ≡ some q = ground arith in
      rw first (
        rest ∙ ap (λ x. some (record p { tombstones = x })) (append_assoc p.tombstones (t ∷ []) ts))

  coalesced-live :
      (n : ℕ) (ss ts : List ℕ) (xs ys : List (Entry K))
      → n ≡ length xs
      → Marks n ss
      → live_from 0 (ss ++ add_to_all n ts) (xs ++ ys) ≡ live_from 0 ss xs ++ live_from 0 ts ys
  coalesced-live n ss ts xs ys e m =
      Tombs.live_from-append 0 (ss ++ add_to_all n ts) xs ys
      ∙ ap₂ ◌++◌
          (Tombs.live_from_ext 0 0 (ss ++ add_to_all n ts) ss xs (λ d less. ground (
            arith,
            Tombs.contains-append (0 + d) ss (add_to_all n ts),
            Tombs.contains-add_to_all_lt (0 + d) n ts (omega arith),
          )))
          (Tombs.after_ext (0 + length xs) 0 (ss ++ add_to_all n ts) ts ys (λ d.
            let there : 0 + length xs + d ≡ n + d = omega arith in
            let here : 0 + d ≡ d = omega arith in
            rw (there, here)
              (ground (
                arith,
                Tombs.contains-append (n + d) ss (add_to_all n ts),
                Tombs.contains_above (n + d) n ss m (omega arith),
                Tombs.contains-add_to_all d n ts,
              ))))

  coalesce_runs :
      (cap : ℕ) (p right : LeafPage K) {q : LeafPage K}
      → curr_size p + curr_size right ≤ p.max_size
      → length p.tombstones + length right.tombstones ≤ cap
      → add_tombstones cap
          (record p { entries = p.entries ++ right.entries })
          (add_to_all (curr_size p) right.tombstones)
        ≡ some q
      → coalesce_right_into_page cap p right ≡ some q
  unfolding coalesce_right_into_page
  coalesce_runs cap p right {q} fits room added =
      let small : leb (curr_size p + curr_size right) p.max_size ≡ true = ground arith in
      let few : leb (length p.tombstones + length right.tombstones) cap ≡ true = ground arith in
      simp (small, few, write_entries-append p.max_size p.entries right.entries fits) added

  -- `coalesce_right_into_page` returns on two well-formed pages whose entries fit in one and whose
  -- tombstones fit in the array: the page stays well formed, has the entries of both, and its live
  -- entries are those of the left page followed by those of the right one.
  pub coalesce_right_into_page-live :
      (cap : ℕ) (p right : LeafPage K)
      → LeafInv cap p
      → LeafInv cap right
      → curr_size p + curr_size right ≤ p.max_size
      → length p.tombstones + length right.tombstones ≤ cap
      → (q : LeafPage K) × (coalesce_right_into_page cap p right ≡ some q)
        × LeafInv cap q
        × (live q ≡ live p ++ live right)
        × (curr_size q ≡ curr_size p + curr_size right)
        × (q.max_size ≡ p.max_size)
  unfolding live
  coalesce_right_into_page-live cap p right v w fits room =
      let n = curr_size p in
      let shifted = add_to_all n right.tombstones in
      let size = length-append p.entries right.entries in
      let marks =
        Marks-mono (n + curr_size right) (length (p.entries ++ right.entries)) shifted (omega arith)
          (add_to_all-Marks n (curr_size right) right.tombstones w.marks) in
      let base = record p { entries = p.entries ++ right.entries } in
      let added =
        add_tombstones-append cap base shifted (omega (arith, add_to_all-length n right.tombstones))
          marks in
      (
        record p { entries = p.entries ++ right.entries; tombstones = p.tombstones ++ shifted },
        coalesce_runs cap p right fits room added,
        record {
          fits = omega (arith, size);
          capped =
              omega
                (arith, length-append p.tombstones shifted, add_to_all-length n right.tombstones);
          marks =
              All-append (λ t. t < length (p.entries ++ right.entries)) p.tombstones shifted
                (Marks-mono n (length (p.entries ++ right.entries)) p.tombstones (omega arith)
                  v.marks)
                marks;
          unique = merged-Unique n p.tombstones right.tombstones v.marks v.unique w.unique;
        },
        coalesced-live n p.tombstones right.tombstones p.entries right.entries refl v.marks,
        size,
        refl,
      )

  live_from-length_le :
      (i : ℕ) (ts : List ℕ) (es : List (Entry K)) → length (live_from i ts es) ≤ length es
  live_from-length_le i ts [] = omega arith
  live_from-length_le i ts (e ∷ es) = ground (arith, live_from-length_le (suc i) ts es)

  drop-length_le : (i : ℕ) (es : List (Entry K)) → length (drop i es) ≤ length es
  drop-length_le zero es = omega arith
  drop-length_le (suc i) [] = omega arith
  drop-length_le (suc i) (x ∷ es) = omega (arith, drop-length_le i es)

  moved-length :
      (i : ℕ) (ts : List ℕ) (es : List (Entry K)) → length (live_from i ts (drop i es)) ≤ length es
  moved-length i ts es = omega (arith, live_from-length_le i ts (drop i es), drop-length_le i es)

  split_runs :
      (p fresh : LeafPage K) (start_idx : ℕ)
      → fresh.entries ≡ []
      → start_idx < curr_size p
      → length (live_from start_idx p.tombstones (drop start_idx p.entries)) ≤ fresh.max_size
      → move_split_entries_to p fresh start_idx
        ≡ some (
          record p {
            entries = take start_idx p.entries;
            tombstones = below start_idx p.tombstones;
          },
          record fresh {
            entries = live_from start_idx p.tombstones (drop start_idx p.entries);
            tombstones = [];
          },
        )
  unfolding move_split_entries_to
  split_runs p fresh start_idx empty h room =
      let moved = live_from start_idx p.tombstones (drop start_idx p.entries) in
      let inside : ltb start_idx (curr_size p) ≡ true = ground arith in
      let written = write_entries-append fresh.max_size [] moved (omega arith) in
      simp (inside, empty, written)

  -- `move_split_entries_to` returns on a well-formed page and a fresh sibling of its size: the page
  -- keeps the slots below `start_idx` with their entries, each deleted if it was before, the live
  -- entries of the sibling are those of the other slots, in order, it has no tombstone, and both are
  -- well formed. So the live entries of the two are those of the page before.
  pub move_split_entries_to-live :
      (cap : ℕ) (p fresh : LeafPage K) (start_idx : ℕ)
      → LeafInv cap p
      → fresh.entries ≡ []
      → fresh.max_size ≡ p.max_size
      → start_idx < curr_size p
      → (q : LeafPage K) × (r : LeafPage K) × (move_split_entries_to p fresh start_idx
          ≡ some (q, r))
        × LeafInv cap q
        × LeafInv cap r
        × (q.entries ≡ take start_idx p.entries)
        × ((i : ℕ) → i < start_idx → contains i q.tombstones ≡ contains i p.tombstones)
        × (live r ≡ live_from_slot start_idx p)
        × (live p ≡ live q ++ live r)
        × (curr_size q ≡ start_idx)
        × (r.tombstones ≡ [])
  unfolding live live_before live_from_slot
  move_split_entries_to-live cap p fresh start_idx v empty same h =
      let kept = take start_idx p.entries in
      let moved = live_from start_idx p.tombstones (drop start_idx p.entries) in
      let size = Tombs.length-take start_idx p.entries (omega arith) in
      let small = moved-length start_idx p.tombstones p.entries in
      (
        record p { entries = kept; tombstones = below start_idx p.tombstones },
        record fresh { entries = moved; tombstones = [] },
        split_runs p fresh start_idx empty h (omega (arith, small, v.fits)),
        record {
          fits = omega (arith, size, v.fits);
          capped = omega (arith, below-length_le start_idx p.tombstones, v.capped);
          marks =
              subst (λ n. Marks n (below start_idx p.tombstones)) (sym size)
                (below-Marks start_idx p.tombstones);
          unique = below-Unique start_idx p.tombstones v.unique;
        },
        record {
          fits = omega (arith, small, v.fits);
          capped = omega arith;
          marks = tt;
          unique = tt;
        },
        refl,
        λ j less. Tombs.contains-below j start_idx p.tombstones less,
        Tombs.live_from_none 0 moved,
        live-split p start_idx (omega arith) ∙ parts,
        size,
        refl,
      )
    where
      parts :
          live_before start_idx p ++ live_from_slot start_idx p
          ≡ live (record p {
            entries = take start_idx p.entries;
            tombstones = below start_idx p.tombstones;
          })
            ++ live (record fresh {
              entries = live_from start_idx p.tombstones (drop start_idx p.entries);
              tombstones = [];
            })
      parts =
          ap₂ ◌++◌
            (sym (
              Tombs.before_ext start_idx (below start_idx p.tombstones) p.tombstones p.entries
                (omega arith) (λ j less. Tombs.contains-below j start_idx p.tombstones less)))
            (sym (
              Tombs.live_from_none 0 (live_from start_idx p.tombstones (drop start_idx p.entries))))
