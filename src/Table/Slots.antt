-- ===== src/Table/Slots.antt =====
-- The slots of src/storage/page/table_page.rs: where their tuples are, and how many are deleted.
use oxtub.Base.{
  ℕ, zero, suc, ◌+◌, ◌≤◌, ◌≡◌, refl, ap, sym, ◌∙◌, Bool, true, false, Option, some, List, [], ◌∷◌,
  ◌++◌, length, get_elem?, set, last?, arith, ◌==◌, if◌then◌else◌, and_then,
}
use mathlib.Core.Option.{some-injective}
use oxtub.Disk.Manager.{default_page_size}
use oxtub.Tuple.Bytes.{read_bytes}
use oxtub.Table.Defs.{
  TupleInfo, TupleMeta, TablePage, get_tuple, offset_of, free_space_start, free_space_end,
}

abbrev pub one_deleted : Bool → ℕ
one_deleted true = 1
one_deleted false = 0

abbrev pub count_deleted : List TupleInfo → ℕ
count_deleted [] = 0
count_deleted (i ∷ is) = one_deleted i.tuple_meta.is_deleted + count_deleted is

-- The infos end before the tuples begin, every tuple is behind that point and inside the page, and the
-- header counts the deleted tuples.
pub record PageInv (page : TablePage) : Type 0 where
  pub size : length page.bytes ≡ default_page_size
  pub fits : free_space_start page ≤ free_space_end page
  pub bounded : free_space_end page ≤ default_page_size
  pub inside :
      (s : ℕ) (info : TupleInfo)
      → get_elem? page.tuple_infos s ≡ some info
      → (free_space_end page ≤ info.tuple_offset)
        × (info.tuple_offset + info.tuple_size ≤ default_page_size)
  pub counted : page.num_deleted_tuples ≡ count_deleted page.tuple_infos

pub get_elem?-push :
    {A : Type 0} (xs : List A) (a : A) (s : ℕ)
    → get_elem? (xs ++ a ∷ []) s ≡ (if length xs == s then some a else get_elem? xs s)
get_elem?-push [] a zero = ground arith
get_elem?-push [] a (suc s) = ground arith
get_elem?-push (x ∷ xs) a zero = ground arith
get_elem?-push (x ∷ xs) a (suc s) = ground (arith, get_elem?-push xs a s)

pub count_deleted-push :
    (is : List TupleInfo) (i : TupleInfo)
    → count_deleted (is ++ i ∷ []) ≡ count_deleted is + one_deleted i.tuple_meta.is_deleted
count_deleted-push [] i = omega arith
count_deleted-push (j ∷ is) i = omega (arith, count_deleted-push is i)

one_deleted-le : (b : Bool) → one_deleted b ≤ 1
one_deleted-le true = omega arith
one_deleted-le false = omega arith

pub count_deleted-le : (is : List TupleInfo) → count_deleted is ≤ length is
count_deleted-le [] = omega arith
count_deleted-le (i ∷ is) =
    omega (arith, count_deleted-le is, one_deleted-le i.tuple_meta.is_deleted)

pub count_deleted-set :
    (is : List TupleInfo) (s : ℕ) (old new : TupleInfo)
    → get_elem? is s ≡ some old
    → count_deleted (set is s new) + one_deleted old.tuple_meta.is_deleted
      ≡ count_deleted is + one_deleted new.tuple_meta.is_deleted
count_deleted-set [] s old new h = absurd (cc h)
count_deleted-set (i ∷ is) zero old new h =
    let same =
      ap (λ (x : TupleInfo). one_deleted x.tuple_meta.is_deleted) (some-injective i old h) in
    omega (arith, same)
count_deleted-set (i ∷ is) (suc s) old new h = omega (arith, count_deleted-set is s old new h)

-- A new meta moves no tuple.
pub offset_of-set :
    (is : List TupleInfo) (s : ℕ) (old new : TupleInfo)
    → get_elem? is s ≡ some old
    → new.tuple_offset ≡ old.tuple_offset
    → offset_of (last? (set is s new)) ≡ offset_of (last? is)
offset_of-set [] s old new h e = absurd (cc h)
offset_of-set (i ∷ []) zero old new h e =
    e ∙ ap TupleInfo.tuple_offset (sym (some-injective i old h))
offset_of-set (i ∷ []) (suc s) old new h e = absurd (cc h)
offset_of-set (i ∷ j ∷ is) zero old new h e = refl
offset_of-set (i ∷ j ∷ is) (suc zero) old new h e = offset_of-set (j ∷ is) zero old new h e
offset_of-set (i ∷ j ∷ k ∷ is) (suc (suc s)) old new h e =
    offset_of-set (j ∷ k ∷ is) (suc s) old new h e
offset_of-set (i ∷ j ∷ []) (suc (suc s)) old new h e = absurd (cc h)

-- What a slot holds.
abbrev pub paired : TupleMeta → Option (List ℕ) → Option (TupleMeta × List ℕ)
paired meta o = and_then o (λ tuple. some (meta, tuple))

abbrev pub tuple_in : List ℕ → TupleInfo → Option (TupleMeta × List ℕ)
tuple_in bytes info = paired info.tuple_meta (read_bytes info.tuple_offset info.tuple_size bytes)

pub get_tuple-at :
    (page : TablePage) (s : ℕ) (info : TupleInfo)
    → get_elem? page.tuple_infos s ≡ some info
    → get_tuple page s ≡ tuple_in page.bytes info
unfolding get_tuple
get_tuple-at page s info e = rw e refl
