-- ===== src/Table/Defs.antt =====
-- The slotted page of src/storage/page/table_page.rs. `none` of the outer Option is a panic.
use oxtub.Base.{
  ℕ, ◌+◌, ◌-◌, ◌*◌, ◌%◌, ◌^◌, Bool, true, false, Option, none, some, List, [], ◌∷◌, ◌++◌, length,
  get_elem?, set, last?, leb, if◌then◌else◌, and_then, sub_usize,
}
use oxtub.Disk.Manager.{default_page_size}
use oxtub.Tuple.Bytes.{read_bytes, copy_from_slice}
use oxtub.Tuple.Defs.{zeroes}

-- `TupleMeta` of src/storage/table/tuple.rs
pub record TupleMeta : Type 0 where
  pub txn_id : ℕ
  pub is_deleted : Bool

pub record TupleInfo : Type 0 where
  pub tuple_offset : ℕ
  pub tuple_size : ℕ
  pub tuple_meta : TupleMeta

-- The header, the array of tuple infos, of which the header has the number, and the bytes of the whole
-- page. That the infos and the tuples do not meet in the bytes is part of the invariant.
pub record TablePage : Type 0 where
  pub next_page_id : ℕ
  pub num_deleted_tuples : ℕ
  pub tuple_infos : List TupleInfo
  pub bytes : List ℕ

abbrev pub header_size : ℕ
header_size = 8

abbrev pub info_size : ℕ
info_size = 24

-- `TupleMeta::delete`
abbrev pub delete : TupleMeta → TupleMeta
delete meta = record meta { is_deleted = true }

-- `TupleInfo::new`: both numbers are cut to u16.
abbrev pub new_info : ℕ → ℕ → TupleMeta → TupleInfo
new_info tuple_offset tuple_size tuple_meta = record {
  tuple_offset = tuple_offset % 2 ^ 16;
  tuple_size = tuple_size % 2 ^ 16;
  tuple_meta = tuple_meta;
}

unfoldable pub init : TablePage
init = record {
  next_page_id = 0;
  num_deleted_tuples = 0;
  tuple_infos = [];
  bytes = zeroes default_page_size;
}

abbrev pub num_tuples : TablePage → ℕ
num_tuples page = length page.tuple_infos

abbrev pub free_space_start : TablePage → ℕ
free_space_start page = header_size + num_tuples page * info_size

abbrev pub offset_of : Option TupleInfo → ℕ
offset_of none = default_page_size
offset_of (some last_tuple_info) = last_tuple_info.tuple_offset

abbrev pub free_space_end : TablePage → ℕ
free_space_end page = offset_of (last? page.tuple_infos)

unfoldable pub get_tuple : TablePage → ℕ → Option (TupleMeta × List ℕ)
get_tuple page slot_id = and_then (get_elem? page.tuple_infos slot_id) λ info.
    and_then (read_bytes info.tuple_offset info.tuple_size page.bytes)
      λ tuple. some (info.tuple_meta, tuple)

unfoldable pub append_tuple_info : TupleInfo → TablePage → TablePage
append_tuple_info info page = record page { tuple_infos = page.tuple_infos ++ info ∷ [] }

-- `slot_id` is cut to u16. The inner Option is the one of the source.
abbrev pub place_tuple : TupleMeta → List ℕ → TablePage → Option (Option ℕ × TablePage)
place_tuple meta tuple page =
    let tuple_offset = free_space_end page - length tuple in
    and_then (copy_from_slice tuple_offset (tuple_offset + length tuple) tuple page.bytes)
      λ written.
        let appended =
          append_tuple_info (new_info tuple_offset (length tuple) meta)
            (record page { bytes = written }) in
        some (
          some (num_tuples page % 2 ^ 16),
          if meta.is_deleted
              then record appended { num_deleted_tuples = (page.num_deleted_tuples + 1) % 2 ^ 16 }
              else appended,
        )

unfoldable pub insert_tuple : TupleMeta → List ℕ → TablePage → Option (Option ℕ × TablePage)
insert_tuple meta tuple page =
    and_then (sub_usize (free_space_end page) (free_space_start page)) λ free.
      if leb (info_size + length tuple) free then place_tuple meta tuple page else some (none, page)

-- The deleted tuples, after the meta of one of them was replaced.
abbrev pub recount : Bool → Bool → ℕ → Option ℕ
recount true false n = and_then (sub_usize n 1) (λ m. some (m % 2 ^ 16))
recount false true n = some ((n + 1) % 2 ^ 16)
recount true true n = some n
recount false false n = some n

-- A slot out of bounds fails the assertion.
unfoldable pub update_tuple_meta : ℕ → TupleMeta → TablePage → Option TablePage
update_tuple_meta slot_id meta page = and_then (get_elem? page.tuple_infos slot_id) λ info.
    and_then (recount info.tuple_meta.is_deleted meta.is_deleted page.num_deleted_tuples) λ n.
      some (record page {
        tuple_infos = set page.tuple_infos slot_id (record info { tuple_meta = meta });
        num_deleted_tuples = n;
      })
