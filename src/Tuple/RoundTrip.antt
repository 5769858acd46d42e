-- ===== src/Tuple/RoundTrip.antt =====
-- `Tuple::from_values` and `Tuple::get_value` of src/storage/table/tuple.rs over `Schema::new` of
-- src/catalog/schema.rs.
use oxtub.Base.{
  ℕ, zero, suc, ◌+◌, ◌*◌, ◌/◌, ◌%◌, ◌^◌, ◌≤◌, ◌<◌, ◌≡◌, refl, ap, sym, subst, ◌∙◌, true, false,
  some, List, length, arith, ltb, leb, get_elem?, All, get_elem?-lt, lt-get_elem?,
}
use oxtub.Tuple.Bitmap.{num_bytes, bitmap_is_null, test_bit}
use oxtub.Tuple.Written.{ColumnInv}
use oxtub.Tuple.Columns.{Placed-le, extras, RowOf, ReadsAll, write_columns-ReadsAll}
use oxtub.Tuple.Defs.{
  Encoding, Column, new, types_match, uninlined_size, zeroes, write_columns, from_values,
  read_column, get_value,
}
use oxtub.Tuple.Values.{EncodingLaws}
use oxtub.Value.{Value}
use oxtub.Tuple.Placing.{
  place_columns-Placed, length-place_columns, uninlined_size-extras, types_match-RowOf,
  placed-RowOf, length-RowOf,
}

pub length-zeroes : (n : ℕ) → length (zeroes n) ≡ n
length-zeroes zero = refl
length-zeroes (suc n) = omega (arith, length-zeroes n)

pub get_elem?-zeroes : (n i : ℕ) → i < n → get_elem? (zeroes n) i ≡ some 0
get_elem?-zeroes zero i h = absurd (omega arith)
get_elem?-zeroes (suc n) zero h = refl
get_elem?-zeroes (suc n) (suc i) h = get_elem?-zeroes n i (omega arith)

test_bit_zero : (i : ℕ) → test_bit i 0 ≡ false
test_bit_zero zero = ground arith
test_bit_zero (suc i) = test_bit_zero i

bitmap_is_null-zeroes :
    (size n j : ℕ) → size ≤ n → j / 8 < size → bitmap_is_null size (zeroes n) j ≡ some false
bitmap_is_null-zeroes size n j h inside =
    let whole : leb (length (zeroes n) + 1) size ≡ false = ground (arith, length-zeroes n) in
    let test : ltb (j / 8) size ≡ true = ground arith in
    rw (whole, test, get_elem?-zeroes n (j / 8) (omega arith), test_bit_zero (j % 8)) refl

module _ {D : Type 0} (encoding : Encoding D) (laws : EncodingLaws encoding) where
  index_fits : (n j : ℕ) → j < n → j / 8 < num_bytes n
  unfolding num_bytes
  index_fits n j h = omega arith

  bytes_fit : (n : ℕ) → n ≤ 8 * num_bytes n
  unfolding num_bytes
  bytes_fit n = omega arith

  from_values-steps :
      (values : List (Value D)) (columns : List Column) (n : ℕ) (tuple : List ℕ)
      → types_match values (new columns).columns ≡ true
      → uninlined_size values (new columns).uninlined_columns ≡ some n
      → write_columns encoding
          (num_bytes (length values))
          0
          values
          (new columns).columns
          (new columns).inlined_storage_size
          (zeroes ((new columns).inlined_storage_size + n))
        ≡ some tuple
      → from_values encoding values (new columns) ≡ some tuple
  unfolding from_values
  from_values-steps values columns n tuple m u w = rw (m, u) w

  get_value-steps :
      (tuple : List ℕ) (columns : List Column) (idx : ℕ) (c : Column)
      → get_elem? (new columns).columns idx ≡ some c
      → get_value encoding tuple (new columns) idx
        ≡ read_column encoding (num_bytes (length (new columns).columns)) idx c tuple
  unfolding get_value
  get_value-steps tuple columns idx c e = rw e refl

  get_value-reads :
      (columns : List Column) (tuple : List ℕ) (values : List (Value D))
      → ReadsAll encoding laws
          (num_bytes (length (new columns).columns))
          0
          values
          (new columns).columns
          tuple
      → (idx : ℕ) (v : Value D) → get_elem? values idx ≡ some v
      → idx < length (new columns).columns
      → get_value encoding tuple (new columns) idx ≡ some v
  get_value-reads columns tuple values reads idx v e inside =
      let (c, at) = get_elem?-lt (new columns).columns idx inside in
      get_value-steps tuple columns idx c at
      ∙ ap (λ i. read_column encoding (num_bytes (length (new columns).columns)) i c tuple)
          (let z : idx ≡ 0 + idx = omega arith in z)
      ∙ reads idx v c e at

  -- For a schema of columns as their constructors make them, and values of the types of its columns,
  -- whose numbers fit their types and whose strings are UTF-8 and shorter than 2^32, in a tuple of less
  -- than 2^32 bytes: `from_values` does not panic, its tuple has the size of the slots and of the
  -- strings, and `get_value` gives back the value of every column, NULL included.
  pub get_value-from_values :
      (columns : List Column) (values : List (Value D))
      → All ColumnInv columns
      → RowOf encoding values columns
      → (new columns).inlined_storage_size + extras values < 2 ^ 32
      → (tuple : List ℕ) × (from_values encoding values (new columns) ≡ some tuple)
        × (length tuple ≡ (new columns).inlined_storage_size + extras values)
        × ((idx : ℕ) (v : Value D)
            → get_elem? values idx ≡ some v
            → get_value encoding tuple (new columns) idx ≡ some v)
  unfolding new
  get_value-from_values columns values ok row small =
      let start = num_bytes (length columns) in
      let cs = (new columns).columns in
      let low = (new columns).inlined_storage_size in
      let placed = place_columns-Placed 0 start columns ok in
      let same : length values ≡ length columns = length-RowOf encoding values columns row in
      let many : length cs ≡ length columns = length-place_columns 0 start columns in
      let size = num_bytes (length values) in
      let size_same : size ≡ start = ap num_bytes same in
      let bytes = zeroes (low + extras values) in
      let long : length bytes ≡ low + extras values = length-zeroes (low + extras values) in
      let above : start ≤ low = Placed-le start low cs placed in
      let (tuple, runs, kept, _, _, _, reads) =
        write_columns-ReadsAll encoding laws values cs size start low 0 low bytes placed
          (placed-RowOf encoding values columns 0 start row) (omega (arith, size_same))
          (omega arith) (omega (arith, long)) (omega (arith, long))
          (omega (arith, many, same, bytes_fit (length values)))
          (λ j _ h.
            bitmap_is_null-zeroes size (low + extras values) j (omega (arith, size_same))
              (index_fits (length values) j (omega (arith, many, same)))) in
      (
        tuple,
        from_values-steps values columns (extras values) tuple
            (types_match-RowOf encoding values columns 0 start row)
            (uninlined_size-extras encoding values values columns 0 start row
              (λ j. ap (get_elem? values) (omega arith)))
            runs,
        kept ∙ long,
        λ idx v e.
            get_value-reads columns tuple values
              (subst (λ n. ReadsAll encoding laws (num_bytes n) 0 values cs tuple) (same ∙ sym many)
                reads)
              idx v e (omega (arith, many, same, lt-get_elem? values idx v e)),
      )
