-- ===== src/Tuple/Defs.antt =====
-- src/storage/table/tuple.rs, src/catalog/schema.rs, src/catalog/column.rs and the serialisation of
-- src/types/value.rs. `none` is a panic.
use oxtub.Base.{
  ℕ, zero, suc, ◌+◌, ◌^◌, Bool, true, false, not, Option, none, some, List, [], ◌∷◌, ◌++◌, length,
  get_elem?, drop, ltb, leb, ◌==◌, if◌then◌else◌, and_then,
}
use oxtub.Base.Int.{i16_limit, i32_limit, i64_limit}
use oxtub.Tuple.Bitmap.{num_bytes, bitmap_is_null, set_null}
use oxtub.Tuple.Bytes.{read_bytes, copy_from_slice}
use oxtub.Tuple.Words.{encode, decode, to_word, of_word}
use oxtub.Value.{SqlType, Value, type_eq, sql_type, is_null, inline_size, variable_storage_size}

-- What the program uses of `f64` as bits and of the test for UTF-8 in `String::from_utf8`.
pub record Encoding (D : Type 0) : Type 0 where
  pub to_bits : D → ℕ
  pub of_bits : ℕ → D
  pub valid_utf8 : List ℕ → Bool

pub data ColumnSize : Type 0 where
  inline : ℕ → ColumnSize
  variable : ℕ → ColumnSize

pub record Column : Type 0 where
  pub name : List ℕ
  pub sql_type : SqlType
  pub value_offset : ℕ
  pub size : ColumnSize

-- `SqlType::is_inlined`
abbrev pub is_inlined : SqlType → Bool
is_inlined t = not (type_eq t SqlType.varchar)

-- `Column::new_static` and `Column::new_variable`
unfoldable pub new_static : List ℕ → SqlType → Option Column
new_static name t = and_then (inline_size t) λ size.
    some (record { name = name; sql_type = t; value_offset = 0; size = ColumnSize.inline size })

unfoldable pub new_variable : List ℕ → SqlType → ℕ → Option Column
new_variable name t size =
    if type_eq t SqlType.varchar
    then some
        (record { name = name; sql_type = t; value_offset = 0; size = ColumnSize.variable size })
    else none

-- `Column::inline_size`: an offset takes 4 bytes.
abbrev pub slot_size : ColumnSize → ℕ
slot_size (ColumnSize.inline s) = s
slot_size (ColumnSize.variable s) = 4

pub record Schema : Type 0 where
  pub inlined_storage_size : ℕ
  pub columns : List Column
  pub uninlined_columns : List ℕ

-- The loop of `Schema::new`, from column `i` and an offset on.
abbrev pub place_columns : ℕ → ℕ → List Column → Schema
place_columns i curr_offset [] = record {
  inlined_storage_size = curr_offset;
  columns = [];
  uninlined_columns = [];
}
place_columns i curr_offset (col ∷ cols) =
    let rest = place_columns (suc i) (curr_offset + slot_size col.size) cols in
    record {
      inlined_storage_size = rest.inlined_storage_size;
      columns = record col { value_offset = curr_offset } ∷ rest.columns;
      uninlined_columns =
          if is_inlined col.sql_type then rest.uninlined_columns else i ∷ rest.uninlined_columns;
    }

-- `Schema::new`
unfoldable pub new : List Column → Schema
new columns = place_columns 0 (num_bytes (length columns)) columns

module _ {D : Type 0} where
  -- The two assertions of `from_values` on lengths and types.
  abbrev pub types_match : List (Value D) → List Column → Bool
  types_match [] [] = true
  types_match (v ∷ vs) (c ∷ cs) =
      if type_eq (sql_type v) c.sql_type then types_match vs cs else false
  types_match [] (c ∷ cs) = false
  types_match (v ∷ vs) [] = false

  -- The sum over `uninlined_column_idxs`.
  abbrev pub uninlined_size : List (Value D) → List ℕ → Option ℕ
  uninlined_size values [] = some 0
  uninlined_size values (idx ∷ idxs) = and_then (get_elem? values idx) λ v.
      and_then (variable_storage_size v)
        λ size. and_then (uninlined_size values idxs) λ rest. some (size + rest)

abbrev pub zeroes : ℕ → List ℕ
zeroes zero = []
zeroes (suc n) = 0 ∷ zeroes n

-- `&data[start..]`
abbrev pub suffix : ℕ → List ℕ → Option (List ℕ)
suffix start bytes = if leb start (length bytes) then some (drop start bytes) else none

module _ {D : Type 0} (encoding : Encoding D) where
  -- What `serialize_to` writes. `encode` keeps the low bytes of a length, as `as u32` does.
  unfoldable pub payload : Value D → Option (List ℕ)
  payload (Value.boolean b) = some (encode 1 (if b then 1 else 0))
  payload (Value.small_int i) = some (encode 2 (to_word i16_limit i))
  payload (Value.integer i) = some (encode 4 (to_word i32_limit i))
  payload (Value.big_int i) = some (encode 8 (to_word i64_limit i))
  payload (Value.decimal f) = some (encode 8 (encoding.to_bits f))
  payload (Value.varchar s) = some (encode 4 (length s) ++ s)
  payload (Value.null t) = none

  -- On `data[start..end]`, which it fills exactly.
  abbrev pub serialize_to : Value D → ℕ → ℕ → List ℕ → Option (List ℕ)
  serialize_to v start end_ bytes =
      and_then (payload v) (λ new. copy_from_slice start end_ new bytes)

  unfoldable pub deserialize_from : List ℕ → SqlType → Option (Value D)
  deserialize_from bytes SqlType.boolean =
      and_then (get_elem? bytes 0) (λ b. some (Value.boolean (not (b == 0))))
  deserialize_from bytes SqlType.small_int =
      and_then (read_bytes 0 2 bytes) (λ w. some (Value.small_int (of_word i16_limit (decode w))))
  deserialize_from bytes SqlType.integer =
      and_then (read_bytes 0 4 bytes) (λ w. some (Value.integer (of_word i32_limit (decode w))))
  deserialize_from bytes SqlType.big_int =
      and_then (read_bytes 0 8 bytes) (λ w. some (Value.big_int (of_word i64_limit (decode w))))
  deserialize_from bytes SqlType.decimal =
      and_then (read_bytes 0 8 bytes) (λ w. some (Value.decimal (encoding.of_bits (decode w))))
  deserialize_from bytes SqlType.varchar = and_then (read_bytes 0 4 bytes) λ w.
      and_then (read_bytes 4 (decode w) bytes)
        λ s. if encoding.valid_utf8 s then some (Value.varchar s) else none

  -- The slot of a variable column and its payload, at `variable_data_offset`.
  abbrev pub write_variable : Value D → Column → ℕ → List ℕ → Option (List ℕ × ℕ)
  write_variable v col offset bytes =
      if ltb offset (2 ^ 32)
      then (and_then
          (copy_from_slice col.value_offset (col.value_offset + slot_size col.size)
            (encode 4 offset) bytes)
          λ slot_written. and_then (variable_storage_size v) λ size.
            and_then (serialize_to v offset (offset + size) slot_written)
              λ written. some (written, offset + size))
      else none

  -- One turn of the loop of `from_values`.
  abbrev pub write_column : ℕ → ℕ → Value D → Column → ℕ → List ℕ → Option (List ℕ × ℕ)
  write_column bitmap_size col_idx v col offset bytes =
      if is_null v
      then and_then (set_null bitmap_size bytes col_idx) (λ written. some (written, offset))
      else if is_inlined col.sql_type
      then and_then (serialize_to v col.value_offset (col.value_offset + slot_size col.size) bytes)
          (λ written. some (written, offset))
      else write_variable v col offset bytes

  abbrev pub write_columns : ℕ → ℕ → List (Value D) → List Column → ℕ → List ℕ → Option (List ℕ)
  write_columns bitmap_size col_idx (v ∷ vs) (c ∷ cs) offset bytes =
      and_then (write_column bitmap_size col_idx v c offset bytes)
        λ (written, next). write_columns bitmap_size (suc col_idx) vs cs next written
  write_columns bitmap_size col_idx _ _ offset bytes = some bytes

  -- `Tuple::from_values`
  unfoldable pub from_values : List (Value D) → Schema → Option (List ℕ)
  from_values values schema =
      if types_match values schema.columns
      then (and_then (uninlined_size values schema.uninlined_columns) λ not_inlined_size.
          write_columns (num_bytes (length values)) 0 values schema.columns
            schema.inlined_storage_size (zeroes (schema.inlined_storage_size + not_inlined_size)))
      else none

  abbrev pub read_slot : Column → List ℕ → Option (Value D)
  read_slot col bytes =
      if is_inlined col.sql_type
      then (and_then (inline_size col.sql_type) λ size.
          and_then (read_bytes col.value_offset size bytes)
            λ slot. deserialize_from slot col.sql_type)
      else (and_then (read_bytes col.value_offset 4 bytes)
          λ slot. and_then (suffix (decode slot) bytes) λ rest. deserialize_from rest col.sql_type)

  abbrev pub read_column : ℕ → ℕ → Column → List ℕ → Option (Value D)
  read_column bitmap_size col_idx col bytes =
      and_then (bitmap_is_null bitmap_size bytes col_idx)
        λ null_there. if null_there then some (Value.null col.sql_type) else read_slot col bytes

  -- `Tuple::get_value`
  unfoldable pub get_value : List ℕ → Schema → ℕ → Option (Value D)
  get_value bytes schema idx =
      and_then (get_elem? schema.columns idx)
        λ col. read_column (num_bytes (length schema.columns)) idx col bytes
