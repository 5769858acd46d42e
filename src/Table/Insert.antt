-- ===== src/Table/Insert.antt =====
-- `insert_tuple` of src/storage/page/table_page.rs on every branch.
use oxtub.Base.{
  ℕ, ◌+◌, ◌-◌, ◌%◌, ◌^◌, ◌≤◌, ◌<◌, ◌≡◌, refl, ap, sym, ◌∙◌, ◌≢◌, inl, inr, Bool, true, false,
  Option, none, some, List, [], ◌∷◌, ◌++◌, length, get_elem?, last?-push, length-append, arith,
  ◌==◌, leb, if◌then◌else◌, and_then, sub_usize-some, Bool-cases, ==_refl, ==_ne,
}
use mathlib.Core.Option.{some-injective}
use oxtub.Disk.Manager.{default_page_size}
use oxtub.Table.Defs.{
  TupleInfo, TupleMeta, TablePage, new_info, info_size, num_tuples, free_space_start,
  free_space_end, get_tuple, append_tuple_info, place_tuple, insert_tuple, offset_of,
}
use oxtub.Table.Slots.{
  PageInv, tuple_in, get_tuple-at, one_deleted, get_elem?-push, count_deleted-push,
  count_deleted-le,
}
use oxtub.Tuple.Bytes.{
  overwrite, copy_from_slice-runs, read_bytes-SameOn, read_bytes-overwrite, length-overwrite,
}
use oxtub.Tuple.Written.{overwrite-SameOn}

counted_page :
    (b : Bool) (x : TablePage)
    → (if b then record x { num_deleted_tuples = x.num_deleted_tuples + 1 } else x)
      ≡ record x { num_deleted_tuples = x.num_deleted_tuples + one_deleted b }
counted_page true x = refl
counted_page false x =
    ap (λ n. record x { num_deleted_tuples = n })
      (let e : x.num_deleted_tuples ≡ x.num_deleted_tuples + 0 = omega arith in e)

-- The tuple went into a new slot, or there is no room and nothing changes.
abbrev pub Inserted : TablePage → TupleMeta → List ℕ → Option ℕ → TablePage → Type 0
Inserted page meta tuple none after =
    (after ≡ page) × (free_space_end page < free_space_start page + (info_size + length tuple))
Inserted page meta tuple (some slot_id) after =
    (slot_id ≡ num_tuples page)
    × PageInv after
    × (num_tuples after ≡ num_tuples page + 1)
    × (get_tuple after slot_id ≡ some (meta, tuple))
    × ((s : ℕ) → s ≢ slot_id → get_tuple after s ≡ get_tuple page s)

module _ (page : TablePage) (v : PageInv page) (meta : TupleMeta) (tuple : List ℕ)
    (room : free_space_start page + (info_size + length tuple) ≤ free_space_end page) where
  abbrev offset : ℕ
  offset = free_space_end page - length tuple

  abbrev info : TupleInfo
  info = record { tuple_offset = offset; tuple_size = length tuple; tuple_meta = meta }

  abbrev after : TablePage
  after = record {
    next_page_id = page.next_page_id;
    num_deleted_tuples = page.num_deleted_tuples + one_deleted meta.is_deleted;
    tuple_infos = page.tuple_infos ++ info ∷ [];
    bytes = overwrite offset tuple page.bytes;
  }

  fits_bytes : offset + length tuple ≤ length page.bytes
  fits_bytes = omega (arith, v.size, v.bounded)

  new_info-same : new_info offset (length tuple) meta ≡ info
  new_info-same =
      let small : offset % 2 ^ 16 ≡ offset = omega (arith, v.bounded) in
      let short : length tuple % 2 ^ 16 ≡ length tuple = omega (arith, v.bounded) in
      rw (small, short) refl

  place_tuple-steps : place_tuple meta tuple page ≡ some (some (num_tuples page), after)
  unfolding append_tuple_info
  place_tuple-steps =
      let slot : num_tuples page % 2 ^ 16 ≡ num_tuples page = omega (arith, v.bounded) in
      let few : (page.num_deleted_tuples + 1) % 2 ^ 16 ≡ page.num_deleted_tuples + 1 =
        omega (arith, v.bounded, v.counted, count_deleted-le page.tuple_infos) in
      rw
        (
          copy_from_slice-runs offset (offset + length tuple) tuple page.bytes refl fits_bytes,
          new_info-same,
          slot,
          few,
        )
        (ap (λ x. some (some (num_tuples page), x))
          (counted_page meta.is_deleted
            (record after { num_deleted_tuples = page.num_deleted_tuples })))

  last_info : free_space_end after ≡ offset
  last_info = ap offset_of (last?-push page.tuple_infos info)

  info_at :
      (s : ℕ)
      → get_elem? after.tuple_infos s
        ≡ (if num_tuples page == s then some info else get_elem? page.tuple_infos s)
  info_at s = get_elem?-push page.tuple_infos info s

  after-inside :
      (s : ℕ) (i : TupleInfo)
      → get_elem? after.tuple_infos s ≡ some i
      → (free_space_end after ≤ i.tuple_offset)
        × (i.tuple_offset + i.tuple_size ≤ default_page_size)
  after-inside s i h = elim (Bool-cases (num_tuples page == s)) [
    | inl e ↦
        let same : info ≡ i = some-injective info i (sym (info_at s ∙ rw e refl) ∙ h) in
        let at = ap TupleInfo.tuple_offset same in
        let long = ap TupleInfo.tuple_size same in
        (omega (arith, last_info, at), omega (arith, at, long, v.bounded))
    | inr e ↦
        let (low, high) = v.inside s i (sym (info_at s ∙ rw e refl) ∙ h) in
        (omega (arith, last_info, low), high)
  ]

  after-PageInv : PageInv after
  after-PageInv = record {
    size = length-overwrite offset tuple page.bytes ∙ v.size;
    fits = omega (arith, last_info, length-append page.tuple_infos (info ∷ []), length-one info);
    bounded = omega (arith, last_info, v.bounded);
    inside = after-inside;
    counted = omega (arith, v.counted, count_deleted-push page.tuple_infos info);
  }
    where
      length-one : (i : TupleInfo) → length (i ∷ []) ≡ 1
      length-one i = refl

  get_tuple-new : get_tuple after (num_tuples page) ≡ some (meta, tuple)
  get_tuple-new =
      get_tuple-at after (num_tuples page) info
        (info_at (num_tuples page) ∙ rw (==_refl (num_tuples page)) refl)
      ∙ rw (read_bytes-overwrite offset tuple page.bytes fits_bytes) refl

  get_tuple-other : (s : ℕ) → s ≢ num_tuples page → get_tuple after s ≡ get_tuple page s
  unfolding get_tuple
  get_tuple-other s ne =
      rw (info_at s, ==_ne (num_tuples page) s (λ e. ne (sym e)))
        (same (get_elem? page.tuple_infos s) refl)
    where
      same :
          (o : Option TupleInfo)
          → get_elem? page.tuple_infos s ≡ o
          → and_then o (tuple_in after.bytes) ≡ and_then o (tuple_in page.bytes)
      same none e = refl
      same (some i) e =
          rw
            (read_bytes-SameOn i.tuple_offset i.tuple_size after.bytes page.bytes (
              overwrite-SameOn offset tuple page.bytes i.tuple_offset
                (i.tuple_offset + i.tuple_size) fits_bytes
                (inr (omega (arith, (v.inside s i e).0)))))
            refl

-- While the page is in order, `insert_tuple` does not panic. Without room for the tuple and its info it
-- returns nothing and changes nothing; otherwise the new tuple is in the slot after the last one, every
-- other slot keeps its tuple, and the page is in order.
pub insert_tuple-Inserted :
    (page : TablePage) (meta : TupleMeta) (tuple : List ℕ)
    → PageInv page
    → (o : Option ℕ) × (t : TablePage) × (insert_tuple meta tuple page ≡ some (o, t))
      × Inserted page meta tuple o t
unfolding insert_tuple
insert_tuple-Inserted page meta tuple v =
    let free = free_space_end page - free_space_start page in
    let runs = sub_usize-some (free_space_end page) (free_space_start page) v.fits in
    elim (Bool-cases (leb (info_size + length tuple) free)) [
      | inl e ↦
          let room : free_space_start page + (info_size + length tuple) ≤ free_space_end page =
            ground (arith, v.fits) in
          (
            some (num_tuples page),
            after page v meta tuple room,
            rw (runs, e) (place_tuple-steps page v meta tuple room),
            (
              refl,
              after-PageInv page v meta tuple room,
              omega (arith, length-append page.tuple_infos (info page v meta tuple room ∷ [])),
              get_tuple-new page v meta tuple room,
              get_tuple-other page v meta tuple room,
            ),
          )
      | inr e ↦ (none, page, rw (runs, e) refl, (refl, ground (arith, v.fits)))
    ]
