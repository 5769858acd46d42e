-- ===== src/Tuple/Bitmap.antt =====
-- `NullBitmap` and `NullBitmapMut` of src/storage/table/tuple.rs.
use oxtub.Base.{
  ℕ, zero, suc, ◌+◌, ◌*◌, ◌/◌, ◌%◌, ◌≤◌, ◌<◌, ◌≡◌, refl, ap, sym, ◌∙◌, Bool, true, false, Option,
  none, some, List, length, get_elem?, set, arith, ltb, leb, ◌==◌, if◌then◌else◌, and_then,
  get_elem?-set, get_elem?-lt, length-set, Bool-cases, inl, inr, ◌≢◌, eq_of_==, ne_of_==, ==_refl,
  ==_ne,
}
use oxtub.Tuple.Bytes.{SameOn}

-- `byte & (1 << i) != 0`
abbrev pub test_bit : ℕ → ℕ → Bool
test_bit zero byte = byte % 2 == 1
test_bit (suc i) byte = test_bit i (byte / 2)

-- `byte | (1 << i)`
abbrev pub set_bit : ℕ → ℕ → ℕ
set_bit zero byte = byte / 2 * 2 + 1
set_bit (suc i) byte = set_bit i (byte / 2) * 2 + byte % 2

-- `num_columns.div_ceil(8)`
unfoldable pub num_bytes : ℕ → ℕ
num_bytes num_columns = (num_columns + 7) / 8

-- On the first `size` bytes of a buffer; `none` is the panic of an index out of bounds.
abbrev pub bitmap_is_null : ℕ → List ℕ → ℕ → Option Bool
bitmap_is_null size bytes col_idx =
    if leb (length bytes + 1) size
    then none
    else if ltb (col_idx / 8) size
    then and_then (get_elem? bytes (col_idx / 8)) (λ byte. some (test_bit (col_idx % 8) byte))
    else none

abbrev pub set_null : ℕ → List ℕ → ℕ → Option (List ℕ)
set_null size bytes col_idx =
    if leb (length bytes + 1) size
    then none
    else if ltb (col_idx / 8) size
    then (and_then (get_elem? bytes (col_idx / 8))
        λ byte. some (set bytes (col_idx / 8) (set_bit (col_idx % 8) byte)))
    else none

pub test_bit-set_bit :
    (i j byte : ℕ) → test_bit j (set_bit i byte) ≡ (if i == j then true else test_bit j byte)
test_bit-set_bit zero zero byte = ground arith
test_bit-set_bit zero (suc j) byte =
    let half : (byte / 2 * 2 + 1) / 2 ≡ byte / 2 = omega arith in
    rw half (other (test_bit j (byte / 2)))
  where
    other : (b : Bool) → b ≡ (if 0 == suc j then true else b)
    other b = ground arith
test_bit-set_bit (suc i) zero byte =
    let low : (set_bit i (byte / 2) * 2 + byte % 2) % 2 ≡ byte % 2 = omega arith in
    rw low (other (byte % 2 == 1))
  where
    other : (b : Bool) → b ≡ (if suc i == 0 then true else b)
    other b = ground arith
test_bit-set_bit (suc i) (suc j) byte =
    let half : (set_bit i (byte / 2) * 2 + byte % 2) / 2 ≡ set_bit i (byte / 2) = omega arith in
    rw half (test_bit-set_bit i j (byte / 2) ∙ same (test_bit j (byte / 2)))
  where
    same : (b : Bool) → (if i == j then true else b) ≡ (if suc i == suc j then true else b)
    same b = ground arith

-- The bitmap depends on its bytes alone.
pub bitmap_is_null-SameOn :
    (size : ℕ) (a b : List ℕ) (j : ℕ)
    → length a ≡ length b
    → SameOn 0 size a b
    → bitmap_is_null size a j ≡ bitmap_is_null size b j
bitmap_is_null-SameOn size a b j e h = elim (Bool-cases (ltb (j / 8) size)) [
  | inl inside ↦ rw (e, inside, h (j / 8) (omega arith) (ground arith)) refl
  | inr outside ↦ rw (e, outside) refl
]

bit_apart : (k j : ℕ) → k / 8 ≡ j / 8 → (k % 8 == j % 8) ≡ (k == j)
bit_apart k j e = elim (Bool-cases (k == j)) [
  | inl same ↦ rw same (ap (λ x. x % 8 == j % 8) (eq_of_== k j same) ∙ ==_refl (j % 8))
  | inr differ ↦
      let ne : k ≢ j = ne_of_== k j differ in
      rw differ (==_ne (k % 8) (j % 8) (λ h. ne (omega (arith, e, h))))
]

set_null-bit :
    (size : ℕ) (bytes : List ℕ) (k byte j : ℕ)
    → size ≤ length bytes
    → k / 8 < size
    → get_elem? bytes (k / 8) ≡ some byte
    → bitmap_is_null size (set bytes (k / 8) (set_bit (k % 8) byte)) j
      ≡ (if k == j then some true else bitmap_is_null size bytes j)
set_null-bit size bytes k byte j h inside at = elim (Bool-cases (k / 8 == j / 8)) [
  | inl e ↦
      let same : k / 8 ≡ j / 8 = eq_of_== (k / 8) (j / 8) e in
      let test : ltb (j / 8) size ≡ true = ground arith in
      let whole : leb (length bytes + 1) size ≡ false = ground arith in
      let here : get_elem? bytes (j / 8) ≡ some byte = ap (get_elem? bytes) (sym same) ∙ at in
      rw
        (
          length-set bytes (k / 8) (set_bit (k % 8) byte),
          whole,
          test,
          get_elem?-set bytes (k / 8) (j / 8) (set_bit (k % 8) byte) (omega arith),
          e,
          here,
          test_bit-set_bit (k % 8) (j % 8) byte,
          bit_apart k j same,
        )
        (push (k == j) (test_bit (j % 8) byte))
  | inr e ↦
      let differ : (k == j) ≡ false =
        ==_ne k j (λ x. ne_of_== (k / 8) (j / 8) e (ap (λ y. y / 8) x)) in
      rw
        (
          length-set bytes (k / 8) (set_bit (k % 8) byte),
          get_elem?-set bytes (k / 8) (j / 8) (set_bit (k % 8) byte) (omega arith),
          e,
          differ,
        )
        refl
]
  where
    push : (c t : Bool) → some (if c then true else t) ≡ (if c then some true else some t)
    push true t = refl
    push false t = refl

pub set_null-runs :
    (size : ℕ) (bytes : List ℕ) (k : ℕ)
    → size ≤ length bytes
    → k / 8 < size
    → (after : List ℕ) × (set_null size bytes k ≡ some after)
      × (length after ≡ length bytes)
      × SameOn size (length bytes) after bytes
      × ((j : ℕ)
          → bitmap_is_null size after j
            ≡ (if k == j then some true else bitmap_is_null size bytes j))
set_null-runs size bytes k h inside =
    let (byte, at) = get_elem?-lt bytes (k / 8) (omega arith) in
    let new = set_bit (k % 8) byte in
    let after = set bytes (k / 8) new in
    let whole : leb (length bytes + 1) size ≡ false = ground arith in
    let whole' : leb (length after + 1) size ≡ false =
      ap (λ n. leb (n + 1) size) (length-set bytes (k / 8) new) ∙ whole in
    let test : ltb (k / 8) size ≡ true = ground arith in
    (
      after,
      simp (whole, test, at),
      length-set bytes (k / 8) new,
      λ i l r.
          get_elem?-set bytes (k / 8) i new (omega arith) ∙ outside i l (get_elem? bytes i) new,
      λ j. set_null-bit size bytes k byte j h inside at,
    )
  where
    outside : (i : ℕ) → size ≤ i → (o : Option ℕ) (n : ℕ) → (if k / 8 == i then some n else o) ≡ o
    outside i l o n = ground arith
