-- ===== src/Table/Tests.antt =====
-- Witnesses, on an empty page and on one of a single tuple.
use oxtub.Base.{
  ℕ, zero, suc, ◌+◌, ◌≤◌, ◌≡◌, refl, ap, ◌∙◌, ◌≢◌, false, Option, some, List, [], ◌∷◌, arith,
  get_elem?,
}
use oxtub.Disk.Manager.{default_page_size}
use oxtub.Table.Defs.{
  TablePage, TupleMeta, TupleInfo, init, insert_tuple, update_tuple_meta, get_tuple, delete,
}
use oxtub.Table.Insert.{Inserted, insert_tuple-Inserted}
use oxtub.Table.Mark.{update_tuple_meta-get_tuple}
use oxtub.Table.Slots.{PageInv, paired, get_tuple-at}
use oxtub.Tuple.Bytes.{read_bytes}
use oxtub.Tuple.Defs.{zeroes}
use oxtub.Tuple.RoundTrip.{length-zeroes, get_elem?-zeroes}

init-PageInv : PageInv init
unfolding init
init-PageInv = record {
  size = length-zeroes default_page_size;
  fits = omega arith;
  bounded = omega arith;
  inside = λ s info h. absurd (cc h);
  counted = refl;
}

abbrev meta : TupleMeta
meta = record { txn_id = 7; is_deleted = false }

insert_tuple-Inserted_example :
    (o : Option ℕ) × (t : TablePage) × (insert_tuple meta (1 ∷ 2 ∷ 3 ∷ []) init ≡ some (o, t))
    × Inserted init meta (1 ∷ 2 ∷ 3 ∷ []) o t
insert_tuple-Inserted_example = insert_tuple-Inserted init meta (1 ∷ 2 ∷ 3 ∷ []) init-PageInv

-- The last two bytes of the page are a tuple.
abbrev short_page : TablePage
short_page = record {
  next_page_id = 0;
  num_deleted_tuples = 0;
  tuple_infos = record { tuple_offset = 8190; tuple_size = 2; tuple_meta = meta } ∷ [];
  bytes = zeroes default_page_size;
}

short_page-PageInv : PageInv short_page
short_page-PageInv = record {
  size = length-zeroes default_page_size;
  fits = omega arith;
  bounded = omega arith;
  inside = λ s info h. only s info h;
  counted = refl;
}
  where
    only :
        (s : ℕ) (info : TupleInfo)
        → get_elem? short_page.tuple_infos s ≡ some info
        → (8190 ≤ info.tuple_offset) × (info.tuple_offset + info.tuple_size ≤ 8192)
    only zero info h = ground arith
    only (suc s) info h = absurd (cc h)

read_two :
    (bytes : List ℕ)
    → get_elem? bytes 8190 ≡ some 0
    → get_elem? bytes 8191 ≡ some 0
    → read_bytes 8190 2 bytes ≡ some (0 ∷ 0 ∷ [])
read_two bytes e e' = rw (e, e') refl

get_tuple-short_page : get_tuple short_page 0 ≡ some (meta, 0 ∷ 0 ∷ [])
get_tuple-short_page =
    get_tuple-at short_page 0 (record { tuple_offset = 8190; tuple_size = 2; tuple_meta = meta })
      refl
    ∙ ap (paired meta) (
        read_two (zeroes default_page_size) (get_elem?-zeroes default_page_size 8190 (omega arith))
          (get_elem?-zeroes default_page_size 8191 (omega arith)))

update_tuple_meta-get_tuple_example :
    (t : TablePage) × (update_tuple_meta 0 (delete meta) short_page ≡ some t)
    × PageInv t
    × (get_tuple t 0 ≡ some (delete meta, 0 ∷ 0 ∷ []))
    × ((s : ℕ) → s ≢ 0 → get_tuple t s ≡ get_tuple short_page s)
update_tuple_meta-get_tuple_example =
    update_tuple_meta-get_tuple short_page 0 meta (delete meta) (0 ∷ 0 ∷ []) short_page-PageInv
      get_tuple-short_page
