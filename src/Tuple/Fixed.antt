-- ===== src/Tuple/Fixed.antt =====
-- A NULL and a value of a fixed size, in the loop of `from_values` in src/storage/table/tuple.rs.
use oxtub.Base.{
  ℕ, ◌+◌, ◌/◌, ◌^◌, ◌≤◌, ◌<◌, ◌≡◌, refl, ap, sym, ◌∙◌, inl, inr, Bool, true, false, Option, some,
  List, length, arith, ◌==◌, if◌then◌else◌,
}
use mathlib.Core.Option.{some-injective}
use oxtub.Tuple.Bitmap.{bitmap_is_null, bitmap_is_null-SameOn, set_null-runs}
use oxtub.Tuple.Bytes.{
  read_bytes, overwrite, copy_from_slice, copy_from_slice-runs, read_bytes-SameOn,
  read_bytes-overwrite, length-overwrite,
}
use oxtub.Tuple.Defs.{
  Encoding, Column, slot_size, is_inlined, payload, deserialize_from, write_column, read_column,
}
use oxtub.Tuple.Values.{EncodingLaws, WellTyped, deserialize_from-payload}
use oxtub.Value.{SqlType, Value, sql_type, is_null, inline_size}
use oxtub.Tuple.Written.{ColumnInv, extra, overwrite-SameOn, Written}

module _ {D : Type 0} (encoding : Encoding D) (laws : EncodingLaws encoding) where
  module _ (size low k : ℕ) (col : Column) (ok : ColumnInv col) (offset : ℕ) (bytes : List ℕ)
      (bitmap : size ≤ col.value_offset) (slot : col.value_offset + slot_size col.size ≤ low)
      (behind : low ≤ offset) (index : k / 8 < size)
      (not_null : bitmap_is_null size bytes k ≡ some false) (small : length bytes < 2 ^ 32) where
    pub null-Written :
        (t : SqlType)
        → col.sql_type ≡ t
        → offset ≤ length bytes
        → (after : List ℕ) × Written encoding laws size low k (Value.null t) col offset bytes after
    null-Written t typed room =
        let (after, runs, same, others, bits) = set_null-runs size bytes k (omega arith) index in
        let null_now : bitmap_is_null size after k ≡ some true =
          bits k ∙ here (bitmap_is_null size bytes k) in
        (
          after,
          record {
            runs =
                rw runs
                  (ap (λ n. some (after, n)) (let e : offset ≡ offset + 0 = omega arith in e));
            same_length = same;
            bits = λ j ne. bits j ∙ rw ne refl;
            slots = λ i l r. others i l (omega arith);
            payloads = λ i l r. others i (omega arith) (omega arith);
            reads = λ b e bit _ _. rw (bit, null_now, typed) refl;
          },
        )
      where
        here : (o : Option Bool) → (if k == k then some true else o) ≡ some true
        here o = ground arith

    inlined-Written :
        (v : Value D) (new : List ℕ)
        → is_null v ≡ false
        → is_inlined (sql_type v) ≡ true
        → extra v ≡ 0
        → col.sql_type ≡ sql_type v
        → payload encoding v ≡ some new
        → inline_size (sql_type v) ≡ some (length new)
        → deserialize_from encoding new (sql_type v) ≡ some v
        → offset ≤ length bytes
        → Written encoding laws size low k v col offset bytes (overwrite col.value_offset new bytes)
    inlined-Written v new n i none_extra typed p s d room =
        let after = overwrite col.value_offset new bytes in
        let inl_col : is_inlined col.sql_type ≡ true = ap is_inlined typed ∙ i in
        let sized : slot_size col.size ≡ length new =
          some-injective (slot_size col.size) (length new)
            (sym (ok.inlined inl_col) ∙ ap inline_size typed ∙ s) in
        let fits : col.value_offset + length new ≤ length bytes = omega arith in
        let same : bitmap_is_null size after k ≡ some false =
          bitmap_is_null-SameOn size after bytes k (length-overwrite col.value_offset new bytes)
            (overwrite-SameOn col.value_offset new bytes 0 size fits (inl bitmap))
          ∙ not_null in
        let copied =
          copy_from_slice-runs col.value_offset (col.value_offset + slot_size col.size) new bytes
            (omega arith) (omega arith) in
        record {
          runs = steps v new after n inl_col p copied none_extra;
          same_length = length-overwrite col.value_offset new bytes;
          bits = λ j _.
              bitmap_is_null-SameOn size after bytes j (length-overwrite col.value_offset new bytes)
                (overwrite-SameOn col.value_offset new bytes 0 size fits (inl bitmap));
          slots =
              overwrite-SameOn col.value_offset new bytes size col.value_offset fits
                (inl (omega arith));
          payloads =
              overwrite-SameOn col.value_offset new bytes low offset fits (inr (omega arith));
          reads = λ b e bit in_slot _.
              let read : read_bytes col.value_offset (slot_size col.size) b ≡ some new =
                read_bytes-SameOn col.value_offset (slot_size col.size) b after in_slot
                ∙ ap (λ m. read_bytes col.value_offset m after) sized
                ∙ read_bytes-overwrite col.value_offset new bytes fits in
              read_steps v new b (bit ∙ same) inl_col (ok.inlined inl_col) read
                (ap (deserialize_from encoding new) typed ∙ d);
        }
      where
        steps :
            (v : Value D) (new after : List ℕ)
            → is_null v ≡ false
            → is_inlined col.sql_type ≡ true
            → payload encoding v ≡ some new
            → copy_from_slice col.value_offset (col.value_offset + slot_size col.size) new bytes
              ≡ some after
            → extra v ≡ 0
            → write_column encoding size k v col offset bytes ≡ some (after, offset + extra v)
        steps v new after n i p c x =
            rw (n, i, p, c, x)
              (ap (λ m. some (after, m)) (let e : offset ≡ offset + 0 = omega arith in e))

        read_steps :
            (v : Value D) (new b : List ℕ)
            → bitmap_is_null size b k ≡ some false
            → is_inlined col.sql_type ≡ true
            → inline_size col.sql_type ≡ some (slot_size col.size)
            → read_bytes col.value_offset (slot_size col.size) b ≡ some new
            → deserialize_from encoding new col.sql_type ≡ some v
            → read_column encoding size k col b ≡ some v
        read_steps v new b bit i s r d = rw (bit, i, s, r) d

    pub fixed-Written :
        (v : Value D)
        → is_null v ≡ false
        → is_inlined (sql_type v) ≡ true
        → extra v ≡ 0
        → WellTyped encoding v
        → col.sql_type ≡ sql_type v
        → offset + extra v ≤ length bytes
        → (after : List ℕ) × Written encoding laws size low k v col offset bytes after
    fixed-Written v n i x w typed room =
        let (new, p, s, d) = deserialize_from-payload encoding laws v n i w in
        (
          overwrite col.value_offset new bytes,
          inlined-Written v new n i x typed p s d (omega (arith, x)),
        )
