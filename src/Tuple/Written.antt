-- ===== src/Tuple/Written.antt =====
-- What one turn of the loop of `from_values` in src/storage/table/tuple.rs leaves behind.
use oxtub.Base.{ℕ, ◌+◌, ◌≤◌, ◌≡◌, inl, inr, ◌⊎◌, true, false, some, List, length, arith, ◌==◌}
use oxtub.Tuple.Bitmap.{bitmap_is_null}
use oxtub.Tuple.Bytes.{overwrite, SameOn, get_elem?-overwrite_outside}
use oxtub.Tuple.Defs.{Encoding, Column, slot_size, is_inlined, write_column, read_column}
use oxtub.Tuple.Values.{EncodingLaws}
use oxtub.Value.{Value, inline_size}

-- The size of a column is that of its type, or of an offset.
pub record ColumnInv (col : Column) : Type 0 where
  pub inlined :
      is_inlined col.sql_type ≡ true → inline_size col.sql_type ≡ some (slot_size col.size)
  pub variable : is_inlined col.sql_type ≡ false → slot_size col.size ≡ 4

-- The bytes of a value behind the slots.
abbrev pub extra : {D : Type 0} → Value D → ℕ
extra (Value.boolean b) = 0
extra (Value.small_int i) = 0
extra (Value.integer i) = 0
extra (Value.big_int i) = 0
extra (Value.decimal f) = 0
extra (Value.varchar s) = length s + 4
extra (Value.null t) = 0

pub overwrite-SameOn :
    (start : ℕ) (new bytes : List ℕ) (low high : ℕ)
    → start + length new ≤ length bytes
    → (high ≤ start) ⊎ (start + length new ≤ low)
    → SameOn low high (overwrite start new bytes) bytes
overwrite-SameOn start new bytes low high h (inl l) =
    λ i a b. get_elem?-overwrite_outside start new bytes i h (inl (omega arith))
overwrite-SameOn start new bytes low high h (inr r) =
    λ i a b. get_elem?-overwrite_outside start new bytes i h (inr (omega arith))

module _ {D : Type 0} (encoding : Encoding D) (laws : EncodingLaws encoding) where
  -- `size` bytes of bitmap, slots up to `low`, and payloads up to `offset`.
  pub record Written (size low k : ℕ) (v : Value D) (col : Column) (offset : ℕ)
      (bytes after : List ℕ) : Type 0 where
    pub runs : write_column encoding size k v col offset bytes ≡ some (after, offset + extra v)
    pub same_length : length after ≡ length bytes
    pub bits :
        (j : ℕ) → (k == j) ≡ false → bitmap_is_null size after j ≡ bitmap_is_null size bytes j
    pub slots : SameOn size col.value_offset after bytes
    pub payloads : SameOn low offset after bytes
    pub reads :
        (b : List ℕ)
        → length b ≡ length after
        → bitmap_is_null size b k ≡ bitmap_is_null size after k
        → SameOn col.value_offset (col.value_offset + slot_size col.size) b after
        → SameOn low (offset + extra v) b after
        → read_column encoding size k col b ≡ some v
