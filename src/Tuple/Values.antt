-- ===== src/Tuple/Values.antt =====
-- One value of src/types/value.rs: what was serialised is deserialised.
use oxtub.Base.{
  ℕ, ◌*◌, ◌≤◌, ◌<◌, ◌≡◌, refl, ap, ◌∙◌, true, false, some, List, ◌++◌, length, arith, leb, drop,
  and_then,
}
use oxtub.Base.Int.{i16_limit, i32_limit, i64_limit, Fits, ℤ}
use oxtub.Tuple.Bytes.{read_bytes, read_bytes-drop, read_bytes-append}
use oxtub.Tuple.Defs.{Encoding, payload, deserialize_from, is_inlined, suffix}
use oxtub.Tuple.Words.{
  encode, decode, space, decode-encode, to_word, of_word, of_word-to_word, to_word_lt,
}
use oxtub.Value.{SqlType, Value, sql_type, is_null, inline_size}

-- The bits of an f64 determine it, and there are 64 of them.
pub record EncodingLaws {D : Type 0} (encoding : Encoding D) : Type 0 where
  pub of_bits-to_bits : (f : D) → encoding.of_bits (encoding.to_bits f) ≡ f
  pub to_bits_lt : (f : D) → encoding.to_bits f < space 8

-- What the types of Rust say of a value; the length of a string fits its prefix.
abbrev pub WellTyped : {D : Type 0} → Encoding D → Value D → Type 0
WellTyped encoding (Value.boolean b) = Unit
WellTyped encoding (Value.small_int i) = Fits i16_limit i
WellTyped encoding (Value.integer i) = Fits i32_limit i
WellTyped encoding (Value.big_int i) = Fits i64_limit i
WellTyped encoding (Value.decimal f) = Unit
WellTyped encoding (Value.varchar s) = (encoding.valid_utf8 s ≡ true) × (length s < space 4)
WellTyped encoding (Value.null t) = Unit

of_word-decode :
    (limit w : ℕ) (i : ℤ)
    → 0 < limit
    → 2 * limit ≡ space w
    → Fits limit i
    → of_word limit (decode (encode w (to_word limit i))) ≡ i
of_word-decode limit w i l e h =
    ap (of_word limit) (decode-encode w (to_word limit i) (omega (arith, to_word_lt limit i l h)))
    ∙ of_word-to_word limit i h

half16 : 2 * i16_limit ≡ space 2
unfolding i16_limit
half16 = refl

half32 : 2 * i32_limit ≡ space 4
unfolding i32_limit
half32 = refl

half64 : 2 * i64_limit ≡ space 8
unfolding i64_limit
half64 = refl

module _ {D : Type 0} (encoding : Encoding D) (laws : EncodingLaws encoding) where
  -- A value of a fixed size.
  pub deserialize_from-payload :
      (v : Value D)
      → is_null v ≡ false
      → is_inlined (sql_type v) ≡ true
      → WellTyped encoding v
      → (bytes : List ℕ) × (payload encoding v ≡ some bytes)
        × (inline_size (sql_type v) ≡ some (length bytes))
        × (deserialize_from encoding bytes (sql_type v) ≡ some v)
  unfolding payload deserialize_from inline_size
  deserialize_from-payload (Value.boolean true) n i w = (encode 1 1, refl, refl, refl)
  deserialize_from-payload (Value.boolean false) n i w = (encode 1 0, refl, refl, refl)
  deserialize_from-payload (Value.small_int k) n i w = (
    encode 2 (to_word i16_limit k),
    refl,
    refl,
    ap (λ x. some (Value.small_int x))
        (of_word-decode i16_limit 2 k (omega (arith, half16)) half16 w),
  )
  deserialize_from-payload (Value.integer k) n i w = (
    encode 4 (to_word i32_limit k),
    refl,
    refl,
    ap (λ x. some (Value.integer x))
        (of_word-decode i32_limit 4 k (omega (arith, half32)) half32 w),
  )
  deserialize_from-payload (Value.big_int k) n i w = (
    encode 8 (to_word i64_limit k),
    refl,
    refl,
    ap (λ x. some (Value.big_int x))
        (of_word-decode i64_limit 8 k (omega (arith, half64)) half64 w),
  )
  deserialize_from-payload (Value.decimal f) n i w = (
    encode 8 (encoding.to_bits f),
    refl,
    refl,
    ap (λ x. some (Value.decimal (encoding.of_bits x)))
          (decode-encode 8 (encoding.to_bits f) (laws.to_bits_lt f))
        ∙ ap (λ x. some (Value.decimal x)) (laws.of_bits-to_bits f),
  )
  deserialize_from-payload (Value.varchar s) n i w = absurd (cc i)
  deserialize_from-payload (Value.null t) n i w = absurd (cc n)

  -- A string, in the middle of the bytes of a tuple.
  pub deserialize_from_varchar :
      (s bytes : List ℕ) (off : ℕ)
      → WellTyped encoding (Value.varchar s)
      → off ≤ length bytes
      → read_bytes off (length (encode 4 (length s) ++ s)) bytes ≡ some (encode 4 (length s) ++ s)
      → and_then (suffix off bytes) (λ rest. deserialize_from encoding rest SqlType.varchar)
        ≡ some (Value.varchar s)
  unfolding deserialize_from
  deserialize_from_varchar s bytes off w h there =
      let (size_there, s_there) = read_bytes-append off (encode 4 (length s)) s bytes there in
      let size : decode (encode 4 (length s)) ≡ length s = decode-encode 4 (length s) w.1 in
      let inside : leb off (length bytes) ≡ true = ground arith in
      let read_size : read_bytes 0 4 (drop off bytes) ≡ some (encode 4 (length s)) =
        read_bytes-drop off 0 4 bytes ∙ ap (λ x. read_bytes x 4 bytes) (omega arith) ∙ size_there in
      let read_s : read_bytes 4 (length s) (drop off bytes) ≡ some s =
        read_bytes-drop off 4 (length s) bytes ∙ s_there in
      rw (inside, read_size, size, read_s, w.0) refl
