-- ===== src/Tuple/Bytes.antt =====
-- Byte buffers: slices that are read and written, as src/storage/table/tuple.rs does it.
use oxtub.Base.{
  ℕ, zero, suc, ◌+◌, ◌≤◌, ◌<◌, ◌≡◌, refl, ap, ◌∙◌, ◌⊎◌, inl, inr, Option, none, some, List, [], ◌∷◌,
  length, get_elem?, set, length-set, arith, leb, ◌==◌, if◌then◌else◌, ◌&&◌, ◌++◌, drop,
  get_elem?-set,
}

-- `data[start..start + n]`; `none` is the panic of a slice out of bounds.
abbrev pub cons? : Option ℕ → Option (List ℕ) → Option (List ℕ)
cons? (some b) (some bs) = some (b ∷ bs)
cons? (some b) none = none
cons? none bs = none

abbrev pub read_bytes : ℕ → ℕ → List ℕ → Option (List ℕ)
read_bytes start zero bytes = some []
read_bytes start (suc n) bytes = cons? (get_elem? bytes start) (read_bytes (suc start) n bytes)

abbrev pub overwrite : ℕ → List ℕ → List ℕ → List ℕ
overwrite start [] bytes = bytes
overwrite start (b ∷ bs) bytes = overwrite (suc start) bs (set bytes start b)

-- `data[start..end].copy_from_slice(bytes)`, which panics out of bounds and on another length.
abbrev pub copy_from_slice : ℕ → ℕ → List ℕ → List ℕ → Option (List ℕ)
copy_from_slice start end_ new bytes =
    if (start + length new == end_) && leb end_ (length bytes)
    then some (overwrite start new bytes)
    else none

pub length-overwrite :
    (start : ℕ) (new bytes : List ℕ) → length (overwrite start new bytes) ≡ length bytes
length-overwrite start [] bytes = refl
length-overwrite start (b ∷ bs) bytes =
    length-overwrite (suc start) bs (set bytes start b) ∙ length-set bytes start b

pub get_elem?-overwrite_outside :
    (start : ℕ) (new bytes : List ℕ) (i : ℕ)
    → start + length new ≤ length bytes
    → (i < start) ⊎ (start + length new ≤ i)
    → get_elem? (overwrite start new bytes) i ≡ get_elem? bytes i
get_elem?-overwrite_outside start [] bytes i h out = refl
get_elem?-overwrite_outside start (b ∷ bs) bytes i h out =
    get_elem?-overwrite_outside (suc start) bs (set bytes start b) i
      (omega (arith, length-set bytes start b)) (wider out)
    ∙ get_elem?-set bytes start i b (omega arith)
    ∙ other (get_elem? bytes i)
  where
    wider :
        (i < start) ⊎ (start + length (b ∷ bs) ≤ i) → (i < suc start) ⊎ (suc start + length bs ≤ i)
    wider (inl l) = inl (omega arith)
    wider (inr r) = inr (omega arith)

    other : (o : Option ℕ) → (if start == i then some b else o) ≡ o
    other o = ground arith

-- Two buffers agree on a range.
abbrev pub SameOn : ℕ → ℕ → List ℕ → List ℕ → Type 0
SameOn low high a b = (i : ℕ) → low ≤ i → i < high → get_elem? a i ≡ get_elem? b i

pub read_bytes-SameOn :
    (start n : ℕ) (a b : List ℕ)
    → SameOn start (start + n) a b
    → read_bytes start n a ≡ read_bytes start n b
read_bytes-SameOn start zero a b h = refl
read_bytes-SameOn start (suc n) a b h =
    rw
      (
        h start (omega arith) (omega arith),
        read_bytes-SameOn (suc start) n a b (λ i l r. h i (omega arith) (omega arith)),
      )
      refl

pub read_bytes-overwrite :
    (start : ℕ) (new bytes : List ℕ)
    → start + length new ≤ length bytes
    → read_bytes start (length new) (overwrite start new bytes) ≡ some new
read_bytes-overwrite start [] bytes h = refl
read_bytes-overwrite start (b ∷ bs) bytes h =
    let inner = set bytes start b in
    let fits : suc start + length bs ≤ length inner = omega (arith, length-set bytes start b) in
    let first : get_elem? (overwrite (suc start) bs inner) start ≡ some b =
      get_elem?-overwrite_outside (suc start) bs inner start fits (inl (omega arith))
      ∙ get_elem?-set bytes start start b (omega arith)
      ∙ here (get_elem? bytes start) in
    rw (first, read_bytes-overwrite (suc start) bs inner fits) refl
  where
    here : (o : Option ℕ) → (if start == start then some b else o) ≡ some b
    here o = ground arith

pub copy_from_slice-runs :
    (start end_ : ℕ) (new bytes : List ℕ)
    → start + length new ≡ end_
    → end_ ≤ length bytes
    → copy_from_slice start end_ new bytes ≡ some (overwrite start new bytes)
copy_from_slice-runs start end_ new bytes e h = ground arith

pub get_elem?-drop :
    (n i : ℕ) (bytes : List ℕ) → get_elem? (drop n bytes) i ≡ get_elem? bytes (n + i)
get_elem?-drop zero i bytes = ap (get_elem? bytes) (omega arith)
get_elem?-drop (suc n) i [] = refl
get_elem?-drop (suc n) i (b ∷ bs) =
    get_elem?-drop n i bs
    ∙ ap (get_elem? (b ∷ bs)) (let e : suc (n + i) ≡ suc n + i = omega arith in e)

pub read_bytes-drop :
    (off start n : ℕ) (bytes : List ℕ)
    → read_bytes start n (drop off bytes) ≡ read_bytes (off + start) n bytes
read_bytes-drop off start zero bytes = refl
read_bytes-drop off start (suc n) bytes =
    let next : off + suc start ≡ suc (off + start) = omega arith in
    rw (get_elem?-drop off start bytes, read_bytes-drop off (suc start) n bytes, next) refl

-- The parts of a range that reads as two lists.
pub read_bytes-append :
    (start : ℕ) (xs ys bytes : List ℕ)
    → read_bytes start (length (xs ++ ys)) bytes ≡ some (xs ++ ys)
    → (read_bytes start (length xs) bytes ≡ some xs)
      × (read_bytes (start + length xs) (length ys) bytes ≡ some ys)
read_bytes-append start [] ys bytes h =
    (refl, ap (λ s. read_bytes s (length ys) bytes) (omega arith) ∙ h)
read_bytes-append start (x ∷ xs) ys bytes h =
    let (first, rest) = cons?-eq-some (get_elem? bytes start) _ x (xs ++ ys) h in
    let (front, back) = read_bytes-append (suc start) xs ys bytes rest in
    (
      rw (first, front) refl,
      ap (λ s. read_bytes s (length ys) bytes)
            (let e : start + length (x ∷ xs) ≡ suc start + length xs = omega arith in e)
          ∙ back,
    )
  where
    cons?-eq-some :
        (o : Option ℕ) (os : Option (List ℕ)) (b : ℕ) (bs : List ℕ)
        → cons? o os ≡ some (b ∷ bs)
        → (o ≡ some b) × (os ≡ some bs)
    cons?-eq-some (some b) (some bs) c cs e = (cc, cc)
    cons?-eq-some (some b) none c cs e = absurd (cc e)
    cons?-eq-some none os c cs e = absurd (cc e)
