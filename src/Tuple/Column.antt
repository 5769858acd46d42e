-- ===== src/Tuple/Column.antt =====
-- One turn of the loop of `from_values` in src/storage/table/tuple.rs: the column reads back as it was
-- written, as long as its bytes stay.
use oxtub.Base.{ℕ, ◌+◌, ◌/◌, ◌^◌, ◌≤◌, ◌<◌, ◌≡◌, refl, false, some, List, length, arith}
use oxtub.Tuple.Bitmap.{bitmap_is_null}
use oxtub.Tuple.Defs.{Encoding, Column, slot_size}
use oxtub.Tuple.Values.{EncodingLaws, WellTyped}
use oxtub.Value.{Value, sql_type}
use oxtub.Tuple.Fixed.{null-Written, fixed-Written}
use oxtub.Tuple.Strings.{string_written, string-Written}
use oxtub.Tuple.Written.{ColumnInv, extra, Written}

module _ {D : Type 0} (encoding : Encoding D) (laws : EncodingLaws encoding) where
  module _ (size low k : ℕ) (col : Column) (ok : ColumnInv col) (offset : ℕ) (bytes : List ℕ)
      (bitmap : size ≤ col.value_offset) (slot : col.value_offset + slot_size col.size ≤ low)
      (behind : low ≤ offset) (index : k / 8 < size)
      (not_null : bitmap_is_null size bytes k ≡ some false) (small : length bytes < 2 ^ 32) where
    pub write_column-Written :
        (v : Value D)
        → WellTyped encoding v
        → col.sql_type ≡ sql_type v
        → offset + extra v ≤ length bytes
        → (after : List ℕ) × Written encoding laws size low k v col offset bytes after
    write_column-Written (Value.boolean b) w typed room =
        fixed-Written encoding laws size low k col ok offset bytes bitmap slot behind index not_null
          small (Value.boolean b) refl refl refl w typed room
    write_column-Written (Value.small_int i) w typed room =
        fixed-Written encoding laws size low k col ok offset bytes bitmap slot behind index not_null
          small (Value.small_int i) refl refl refl w typed room
    write_column-Written (Value.integer i) w typed room =
        fixed-Written encoding laws size low k col ok offset bytes bitmap slot behind index not_null
          small (Value.integer i) refl refl refl w typed room
    write_column-Written (Value.big_int i) w typed room =
        fixed-Written encoding laws size low k col ok offset bytes bitmap slot behind index not_null
          small (Value.big_int i) refl refl refl w typed room
    write_column-Written (Value.decimal f) w typed room =
        fixed-Written encoding laws size low k col ok offset bytes bitmap slot behind index not_null
          small (Value.decimal f) refl refl refl w typed room
    write_column-Written (Value.varchar s) w typed room = (
      string_written encoding laws size low k col ok offset bytes bitmap slot behind index not_null
          small s w typed room,
      string-Written encoding laws size low k col ok offset bytes bitmap slot behind index not_null
          small s w typed room,
    )
    write_column-Written (Value.null t) w typed room =
        null-Written encoding laws size low k col ok offset bytes bitmap slot behind index not_null
          small t typed (omega arith)
