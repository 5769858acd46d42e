-- ===== src/Table/Mark.antt =====
-- `update_tuple_meta` of src/storage/page/table_page.rs.
use oxtub.Base.{
  ℕ, ◌+◌, ◌-◌, ◌%◌, ◌^◌, ◌<◌, ◌≡◌, refl, ap, sym, ◌∙◌, ◌≢◌, inl, inr, Bool, true, false, Option,
  none, some, List, get_elem?, set, arith, ◌==◌, if◌then◌else◌, sub_usize-some, and_then-eq-some,
  get_elem?-set, lt-get_elem?, length-set, Bool-cases, ==_refl, ==_ne,
}
use mathlib.Core.Option.{some-injective}
use oxtub.Table.Defs.{
  TupleInfo, TupleMeta, TablePage, free_space_end, get_tuple, recount, update_tuple_meta,
}
use oxtub.Table.Slots.{
  PageInv, paired, get_tuple-at, one_deleted, count_deleted, count_deleted-le, count_deleted-set,
  offset_of-set,
}
use oxtub.Tuple.Bytes.{read_bytes}

has_info :
    (page : TablePage) (slot_id : ℕ) (meta : TupleMeta) (tuple : List ℕ)
    → get_tuple page slot_id ≡ some (meta, tuple)
    → (old : TupleInfo) × (get_elem? page.tuple_infos slot_id ≡ some old)
unfolding get_tuple
has_info page slot_id meta tuple h =
    let (old, e, _) = and_then-eq-some (get_elem? page.tuple_infos slot_id) _ h in (old, e)

-- One slot has a new meta, and its tuple stays where it is.
module _ (page : TablePage) (v : PageInv page) (slot_id : ℕ) (old : TupleInfo)
    (at : get_elem? page.tuple_infos slot_id ≡ some old) (meta : TupleMeta) where
  abbrev marked_info : TupleInfo
  marked_info = record old { tuple_meta = meta }

  abbrev marked : TablePage
  marked = record page {
    tuple_infos = set page.tuple_infos slot_id marked_info;
    num_deleted_tuples = count_deleted (set page.tuple_infos slot_id marked_info);
  }

  recounts :
      recount old.tuple_meta.is_deleted meta.is_deleted page.num_deleted_tuples
      ≡ some (count_deleted (set page.tuple_infos slot_id marked_info))
  recounts =
      recount-runs old.tuple_meta.is_deleted meta.is_deleted page.num_deleted_tuples _
        (omega (arith, v.counted, count_deleted-set page.tuple_infos slot_id old marked_info at))
        (omega (arith, v.counted, count_deleted-le page.tuple_infos, v.fits, v.bounded))
    where
      recount-runs :
          (a b : Bool) (n m : ℕ)
          → m + one_deleted a ≡ n + one_deleted b
          → n < 8192
          → recount a b n ≡ some m
      recount-runs true true n m e h = ap some (omega arith)
      recount-runs false false n m e h = ap some (omega arith)
      recount-runs true false n m e h =
          let less : n - 1 ≡ m = omega arith in
          let small : m % 2 ^ 16 ≡ m = omega arith in
          rw (sub_usize-some n 1 (omega arith), less, small) refl
      recount-runs false true n m e h =
          let more : n + 1 ≡ m = omega arith in
          let small : m % 2 ^ 16 ≡ m = omega arith in rw (more, small) refl

  update_tuple_meta-steps : update_tuple_meta slot_id meta page ≡ some marked
  unfolding update_tuple_meta
  update_tuple_meta-steps = rw (at, recounts) refl

  marked_at :
      (s : ℕ)
      → get_elem? marked.tuple_infos s
        ≡ (if slot_id == s then some marked_info else get_elem? page.tuple_infos s)
  marked_at s =
      get_elem?-set page.tuple_infos slot_id s marked_info
        (lt-get_elem? page.tuple_infos slot_id old at)

  marked_end : free_space_end marked ≡ free_space_end page
  marked_end = offset_of-set page.tuple_infos slot_id old marked_info at refl

  marked-PageInv : PageInv marked
  marked-PageInv = record {
    size = v.size;
    fits = omega (arith, v.fits, marked_end, length-set page.tuple_infos slot_id marked_info);
    bounded = omega (arith, v.bounded, marked_end);
    inside = λ s i h. elim (Bool-cases (slot_id == s)) [
      | inl e ↦
          let same : marked_info ≡ i =
            some-injective marked_info i (sym (marked_at s ∙ rw e refl) ∙ h) in
          let (low, high) = v.inside slot_id old at in
          (
            omega (arith, marked_end, low, ap TupleInfo.tuple_offset same),
            omega (arith, high, ap TupleInfo.tuple_offset same, ap TupleInfo.tuple_size same),
          )
      | inr e ↦
          let (low, high) = v.inside s i (sym (marked_at s ∙ rw e refl) ∙ h) in
          (omega (arith, marked_end, low), high)
    ];
    counted = refl;
  }

  get_tuple-marked :
      (was : TupleMeta) (tuple : List ℕ)
      → get_tuple page slot_id ≡ some (was, tuple)
      → get_tuple marked slot_id ≡ some (meta, tuple)
  get_tuple-marked was tuple h =
      get_tuple-at marked slot_id marked_info (marked_at slot_id ∙ rw (==_refl slot_id) refl)
      ∙ relabel (read_bytes old.tuple_offset old.tuple_size page.bytes)
          (sym (get_tuple-at page slot_id old at) ∙ h)
    where
      relabel :
          (o : Option (List ℕ))
          → paired old.tuple_meta o ≡ some (was, tuple)
          → paired meta o ≡ some (meta, tuple)
      relabel none e = absurd (cc e)
      relabel (some t) e =
          let same : (old.tuple_meta, t) ≡ (was, tuple) = some-injective _ (was, tuple) e in
          ap (λ (x : TupleMeta × List ℕ). some (meta, x.1)) same

  get_tuple-unmarked : (s : ℕ) → s ≢ slot_id → get_tuple marked s ≡ get_tuple page s
  unfolding get_tuple
  get_tuple-unmarked s ne = rw (marked_at s, ==_ne slot_id s (λ e. ne (sym e))) refl

-- While the page is in order and the slot has a tuple, `update_tuple_meta` does not panic: the slot has
-- the new meta and its tuple as before, every other slot keeps both, and the page is in order, the number
-- of its deleted tuples included.
pub update_tuple_meta-get_tuple :
    (page : TablePage) (slot_id : ℕ) (was meta : TupleMeta) (tuple : List ℕ)
    → PageInv page
    → get_tuple page slot_id ≡ some (was, tuple)
    → (t : TablePage) × (update_tuple_meta slot_id meta page ≡ some t)
      × PageInv t
      × (get_tuple t slot_id ≡ some (meta, tuple))
      × ((s : ℕ) → s ≢ slot_id → get_tuple t s ≡ get_tuple page s)
update_tuple_meta-get_tuple page slot_id was meta tuple v h =
    let (old, at) = has_info page slot_id was tuple h in
    (
      marked page v slot_id old at meta,
      update_tuple_meta-steps page v slot_id old at meta,
      marked-PageInv page v slot_id old at meta,
      get_tuple-marked page v slot_id old at meta was tuple h,
      get_tuple-unmarked page v slot_id old at meta,
    )
