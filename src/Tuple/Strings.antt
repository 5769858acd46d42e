-- ===== src/Tuple/Strings.antt =====
-- A string, in the loop of `from_values` in src/storage/table/tuple.rs.
use oxtub.Base.{
  ℕ, ◌+◌, ◌/◌, ◌^◌, ◌≤◌, ◌<◌, ◌≡◌, refl, ap, ◌∙◌, inl, inr, ◌⊎◌, true, false, some, List, ◌++◌,
  length, arith, ltb, length-append,
}
use oxtub.Tuple.Bitmap.{bitmap_is_null, bitmap_is_null-SameOn}
use oxtub.Tuple.Bytes.{
  read_bytes, overwrite, copy_from_slice-runs, SameOn, read_bytes-SameOn, read_bytes-overwrite,
  length-overwrite,
}
use oxtub.Tuple.Defs.{Encoding, Column, slot_size, is_inlined, payload, write_column, read_column}
use oxtub.Tuple.Values.{EncodingLaws, WellTyped, deserialize_from_varchar}
use oxtub.Tuple.Words.{encode, space, length-encode, decode-encode}
use oxtub.Value.{SqlType, Value, variable_storage_size}
use oxtub.Tuple.Written.{ColumnInv, overwrite-SameOn, Written}

module _ {D : Type 0} (encoding : Encoding D) (laws : EncodingLaws encoding) where
  module _ (size low k : ℕ) (col : Column) (ok : ColumnInv col) (offset : ℕ) (bytes : List ℕ)
      (bitmap : size ≤ col.value_offset) (slot : col.value_offset + slot_size col.size ≤ low)
      (behind : low ≤ offset) (index : k / 8 < size)
      (not_null : bitmap_is_null size bytes k ≡ some false) (small : length bytes < 2 ^ 32) where
    -- The slot holds the offset, and the payload stands behind what was written so far.
    module _ (s : List ℕ) (w : WellTyped encoding (Value.varchar s))
        (typed : col.sql_type ≡ SqlType.varchar)
        (room : offset + (length s + 4) ≤ length bytes) where
      abbrev pub string : List ℕ
      string = encode 4 (length s) ++ s

      abbrev pub slot_written : List ℕ
      slot_written = overwrite col.value_offset (encode 4 offset) bytes

      abbrev pub string_written : List ℕ
      string_written = overwrite offset string slot_written

      length-string : length string ≡ length s + 4
      length-string =
          omega (arith, length-append (encode 4 (length s)) s, length-encode 4 (length s))

      not_inlined : is_inlined col.sql_type ≡ false
      not_inlined = ap is_inlined typed

      slot_4 : slot_size col.size ≡ 4
      slot_4 = ok.variable not_inlined

      slot_fits : col.value_offset + length (encode 4 offset) ≤ length bytes
      slot_fits = omega (arith, length-encode 4 offset, slot_4)

      length-slot_written : length slot_written ≡ length bytes
      length-slot_written = length-overwrite col.value_offset (encode 4 offset) bytes

      string_fits : offset + length string ≤ length slot_written
      string_fits = omega (arith, length-slot_written, length-string)

      length-string_written : length string_written ≡ length bytes
      length-string_written = length-overwrite offset string slot_written ∙ length-slot_written

      untouched :
          (lo hi : ℕ)
          → (hi ≤ col.value_offset) ⊎ ((col.value_offset + 4 ≤ lo) × (hi ≤ offset))
          → SameOn lo hi string_written bytes
      untouched lo hi (inl h) = λ i l r.
          overwrite-SameOn offset string slot_written lo hi string_fits (inl (omega arith)) i l r
          ∙ overwrite-SameOn col.value_offset (encode 4 offset) bytes lo hi slot_fits (inl h) i l r
      untouched lo hi (inr (h, h')) = λ i l r.
          overwrite-SameOn offset string slot_written lo hi string_fits (inl h') i l r
          ∙ overwrite-SameOn col.value_offset (encode 4 offset) bytes lo hi slot_fits
              (inr (omega (arith, length-encode 4 offset))) i l r

      read_slot-string : read_bytes col.value_offset 4 string_written ≡ some (encode 4 offset)
      read_slot-string =
          read_bytes-SameOn col.value_offset 4 string_written slot_written (
            overwrite-SameOn offset string slot_written col.value_offset (col.value_offset + 4)
              string_fits (inl (omega (arith, slot_4))))
          ∙ read_bytes-overwrite col.value_offset (encode 4 offset) bytes slot_fits

      write_variable-string :
          write_column encoding size k (Value.varchar s) col offset bytes
          ≡ some (string_written, offset + (length s + 4))
      unfolding payload variable_storage_size
      write_variable-string =
          let narrow : ltb offset (2 ^ 32) ≡ true = ground arith in
          rw
            (
              not_inlined,
              narrow,
              copy_from_slice-runs col.value_offset (col.value_offset + slot_size col.size)
                  (encode 4 offset) bytes (omega (arith, length-encode 4 offset, slot_4))
                  (omega arith),
              copy_from_slice-runs offset (offset + (length s + 4)) string slot_written
                  (omega (arith, length-string)) (omega (arith, length-slot_written)),
            )
            refl

      string_reads :
          (b : List ℕ)
          → length b ≡ length string_written
          → bitmap_is_null size b k ≡ bitmap_is_null size string_written k
          → SameOn col.value_offset (col.value_offset + slot_size col.size) b string_written
          → SameOn low (offset + (length s + 4)) b string_written
          → read_column encoding size k col b ≡ some (Value.varchar s)
      string_reads b e bit in_slot in_string =
          let narrow : offset < space 4 = omega arith in
          let null_bit : bitmap_is_null size b k ≡ some false =
            bit
            ∙ bitmap_is_null-SameOn size string_written bytes k length-string_written
                (untouched 0 size (inl bitmap))
            ∙ not_null in
          let slot_read : read_bytes col.value_offset 4 b ≡ some (encode 4 offset) =
            read_bytes-SameOn col.value_offset 4 b string_written
              (λ i l r. in_slot i l (omega (arith, slot_4)))
            ∙ read_slot-string in
          let there : read_bytes offset (length string) b ≡ some string =
            read_bytes-SameOn offset (length string) b string_written
              (λ i l r. in_string i (omega arith) (omega (arith, length-string)))
            ∙ read_bytes-overwrite offset string slot_written string_fits in
          rw (null_bit, not_inlined, slot_read, decode-encode 4 offset narrow, typed)
            (deserialize_from_varchar encoding laws s b offset w
              (omega (arith, e, length-string_written)) there)

      pub string-Written :
          Written encoding laws size low k (Value.varchar s) col offset bytes string_written
      string-Written = record {
        runs = write_variable-string;
        same_length = length-string_written;
        bits = λ j _.
            bitmap_is_null-SameOn size string_written bytes j length-string_written
              (untouched 0 size (inl bitmap));
        slots = untouched size col.value_offset (inl (omega arith));
        payloads = untouched low offset (inr (omega (arith, slot_4), omega arith));
        reads = string_reads;
      }
