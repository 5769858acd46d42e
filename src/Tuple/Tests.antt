-- ===== src/Tuple/Tests.antt =====
-- A witness, where `f64` is a type of two numbers and the strings are those of ASCII.
use oxtub.Base.{
  ℕ, zero, suc, ◌+◌, ◌^◌, ◌<◌, ◌≡◌, refl, Bool, true, false, some, List, [], ◌∷◌, length, arith,
  ltb, ◌&&◌, All, get_elem?,
}
use oxtub.Base.Int.{negsuc, i32_limit}
use oxtub.Tuple.Bitmap.{num_bytes}
use oxtub.Tuple.Written.{ColumnInv}
use oxtub.Tuple.Columns.{RowOf, extras}
use oxtub.Tuple.Defs.{Encoding, Column, ColumnSize, Schema, new, from_values, get_value}
use oxtub.Tuple.Placing.{new_static-ColumnInv, new_variable-ColumnInv}
use oxtub.Tuple.RoundTrip.{get_value-from_values}
use oxtub.Tuple.Values.{EncodingLaws}
use oxtub.Value.{SqlType, Value}

abbrev bits : Bool → ℕ
bits true = 1
bits false = 0

abbrev float : ℕ → Bool
float zero = false
float (suc n) = true

abbrev ascii : List ℕ → Bool
ascii [] = true
ascii (c ∷ cs) = ltb c 128 && ascii cs

abbrev encoding : Encoding Bool
encoding = record { to_bits = bits; of_bits = float; valid_utf8 = ascii }

encoding-EncodingLaws : EncodingLaws encoding
encoding-EncodingLaws = record {
  of_bits-to_bits = λ f. there_and_back f;
  to_bits_lt = λ f. small f;
}
  where
    there_and_back : (f : Bool) → float (bits f) ≡ f
    there_and_back true = refl
    there_and_back false = refl

    small : (f : Bool) → bits f < 18446744073709551616
    small true = omega arith
    small false = omega arith

-- (a INTEGER, b VARCHAR(32), c BIGINT)
abbrev number : Column
number = record {
  name = 97 ∷ [];
  sql_type = SqlType.integer;
  value_offset = 0;
  size = ColumnSize.inline 4;
}

abbrev text : Column
text = record {
  name = 98 ∷ [];
  sql_type = SqlType.varchar;
  value_offset = 0;
  size = ColumnSize.variable 32;
}

abbrev big : Column
big = record {
  name = 99 ∷ [];
  sql_type = SqlType.big_int;
  value_offset = 0;
  size = ColumnSize.inline 8;
}

abbrev columns : List Column
columns = number ∷ text ∷ big ∷ []

abbrev row : List (Value Bool)
row = Value.integer (negsuc 4) ∷ Value.varchar (104 ∷ 105 ∷ []) ∷ Value.null SqlType.big_int ∷ []

columns-ColumnInv : All ColumnInv columns
unfolding oxtub.Tuple.Defs.new_static oxtub.Tuple.Defs.new_variable oxtub.Value.inline_size
columns-ColumnInv = (
  new_static-ColumnInv (97 ∷ []) SqlType.integer number refl,
  (
    new_variable-ColumnInv (98 ∷ []) SqlType.varchar 32 text refl,
    (new_static-ColumnInv (99 ∷ []) SqlType.big_int big refl, tt),
  ),
)

row-RowOf : RowOf encoding row columns
unfolding i32_limit
row-RowOf = (refl, (omega arith, omega arith), (refl, (ground arith, omega arith), (refl, tt, tt)))

row_small : (new columns).inlined_storage_size + extras row < 2 ^ 32
unfolding new num_bytes
row_small = omega arith

get_value-from_values_example :
    (tuple : List ℕ) × (from_values encoding row (new columns) ≡ some tuple)
    × (length tuple ≡ (new columns).inlined_storage_size + extras row)
    × ((idx : ℕ) (v : Value Bool)
        → get_elem? row idx ≡ some v
        → get_value encoding tuple (new columns) idx ≡ some v)
get_value-from_values_example =
    get_value-from_values encoding encoding-EncodingLaws columns row columns-ColumnInv row-RowOf
      row_small
