-- ===== src/Tuple/Words.antt =====
-- Numbers as bytes, the lowest first, as `bytemuck` has them on a little-endian machine.
use oxtub.Base.{
  ℕ, zero, suc, ◌+◌, ◌-◌, ◌*◌, ◌/◌, ◌%◌, ◌<◌, ◌≡◌, refl, List, [], ◌∷◌, length, arith, ltb,
  if◌then◌else◌,
}
use oxtub.Base.Int.{ℤ, pos, negsuc, Fits}

abbrev pub encode : ℕ → ℕ → List ℕ
encode zero n = []
encode (suc w) n = (n % 256) ∷ encode w (n / 256)

abbrev pub decode : List ℕ → ℕ
decode [] = 0
decode (b ∷ bs) = b + 256 * decode bs

-- How many numbers fit into `w` bytes.
abbrev pub space : ℕ → ℕ
space zero = 1
space (suc w) = 256 * space w

pub length-encode : (w n : ℕ) → length (encode w n) ≡ w
length-encode zero n = refl
length-encode (suc w) n = omega (arith, length-encode w (n / 256))

pub decode-encode : (w n : ℕ) → n < space w → decode (encode w n) ≡ n
decode-encode zero n h = omega arith
decode-encode (suc w) n h =
    let rest : n / 256 < space w = omega arith in omega (arith, decode-encode w (n / 256) rest)

-- Two's complement, where `limit` is half of the numbers of the width.
abbrev pub to_word : ℕ → ℤ → ℕ
to_word limit (pos n) = n
to_word limit (negsuc n) = 2 * limit - 1 - n

abbrev pub of_word : ℕ → ℕ → ℤ
of_word limit n = if ltb n limit then pos n else negsuc (2 * limit - 1 - n)

pub of_word-to_word : (limit : ℕ) (i : ℤ) → Fits limit i → of_word limit (to_word limit i) ≡ i
of_word-to_word limit (pos n) h = ground arith
of_word-to_word limit (negsuc n) h = ground arith

pub to_word_lt : (limit : ℕ) (i : ℤ) → 0 < limit → Fits limit i → to_word limit i < 2 * limit
to_word_lt limit (pos n) l h = omega (arith, h.0)
to_word_lt limit (negsuc n) l h = omega arith
