-- ===== src/Tuple/Columns.antt =====
-- The loop of `from_values` in src/storage/table/tuple.rs: every column reads back.
use oxtub.Base.{
  ℕ, zero, suc, ◌+◌, ◌*◌, ◌^◌, ◌≤◌, ◌<◌, ◌≡◌, refl, ap, sym, ◌∙◌, false, some, List, [], ◌∷◌,
  length, arith, get_elem?, ==_ne,
}
use mathlib.Core.Option.{some-injective}
use oxtub.Tuple.Bitmap.{bitmap_is_null}
use oxtub.Tuple.Bytes.{SameOn}
use oxtub.Tuple.Column.{write_column-Written}
use oxtub.Tuple.Written.{ColumnInv, extra}
use oxtub.Tuple.Defs.{Encoding, Column, slot_size, write_columns, read_column}
use oxtub.Tuple.Values.{EncodingLaws, WellTyped}
use oxtub.Value.{Value, sql_type}

-- The slots follow each other from an offset to another.
abbrev pub Placed : ℕ → List Column → ℕ → Type 0
Placed off [] low = off ≡ low
Placed off (c ∷ cs) low =
    (c.value_offset ≡ off) × ColumnInv c × Placed (off + slot_size c.size) cs low

pub Placed-le : (off low : ℕ) (cs : List Column) → Placed off cs low → off ≤ low
Placed-le off low [] h = omega arith
Placed-le off low (c ∷ cs) h = omega (arith, Placed-le (off + slot_size c.size) low cs h.2)

abbrev pub extras : {D : Type 0} → List (Value D) → ℕ
extras [] = 0
extras (v ∷ vs) = extra v + extras vs

-- Values of the types of the columns.
abbrev pub RowOf : {D : Type 0} → Encoding D → List (Value D) → List Column → Type 0
RowOf encoding [] [] = Unit
RowOf encoding (v ∷ vs) (c ∷ cs) =
    (c.sql_type ≡ sql_type v) × WellTyped encoding v × RowOf encoding vs cs
RowOf encoding [] (c ∷ cs) = ⊥
RowOf encoding (v ∷ vs) [] = ⊥

module _ {D : Type 0} (encoding : Encoding D) (laws : EncodingLaws encoding) where
  -- Every value, read from `after`.
  abbrev pub ReadsAll : ℕ → ℕ → List (Value D) → List Column → List ℕ → Type 0
  ReadsAll size k vs cs after =
      (i : ℕ) (v : Value D) (c : Column)
      → get_elem? vs i ≡ some v
      → get_elem? cs i ≡ some c
      → read_column encoding size (k + i) c after ≡ some v

  pub write_columns-ReadsAll :
      (vs : List (Value D)) (cs : List Column) (size off low k offset : ℕ) (bytes : List ℕ)
      → Placed off cs low
      → RowOf encoding vs cs
      → size ≤ off
      → low ≤ offset
      → offset + extras vs ≤ length bytes
      → length bytes < 2 ^ 32
      → k + length cs ≤ 8 * size
      → ((j : ℕ) → k ≤ j → j < k + length cs → bitmap_is_null size bytes j ≡ some false)
      → (after : List ℕ) × (write_columns encoding size k vs cs offset bytes ≡ some after)
        × (length after ≡ length bytes)
        × ((j : ℕ) → j < k → bitmap_is_null size after j ≡ bitmap_is_null size bytes j)
        × SameOn size off after bytes
        × SameOn low offset after bytes
        × ReadsAll size k vs cs after
  write_columns-ReadsAll [] [] size off low k offset bytes p r b l room small n clear =
      (bytes, refl, refl, λ j _. refl, λ i _ _. refl, λ i _ _. refl, λ i v c e _. absurd (cc e))
  write_columns-ReadsAll [] (c ∷ cs) size off low k offset bytes p r b l room small n clear =
      elim r [ ]
  write_columns-ReadsAll (v ∷ vs) [] size off low k offset bytes p r b l room small n clear =
      elim r [ ]
  write_columns-ReadsAll (v ∷ vs) (c ∷ cs) size off low k offset bytes p r b l room small n clear =
      let (at, ok, rest) = p in
      let (typed, well, row) = r in
      let end_ = Placed-le (off + slot_size c.size) low cs rest in
      let (mid, w) =
        write_column-Written encoding laws size low k c ok offset bytes (omega arith) (omega arith)
          l (omega arith) (clear k (omega arith) (omega arith)) small v well typed (omega arith) in
      let (after, runs, same, bits, slots, payloads, reads) =
        write_columns-ReadsAll vs cs size (off + slot_size c.size) low (suc k) (offset + extra v)
          mid rest row (omega arith) (omega arith) (omega (arith, w.same_length))
          (omega (arith, w.same_length)) (omega arith)
          (λ j g h.
            w.bits j (==_ne k j (λ e. omega arith)) ∙ clear j (omega arith) (omega arith)) in
      (
        after,
        rw (w.runs, runs) refl,
        same ∙ w.same_length,
        λ j h. bits j (omega arith) ∙ w.bits j (==_ne k j (λ e. omega arith)),
        λ i g h. slots i g (omega arith) ∙ w.slots i g (omega arith),
        λ i g h. payloads i g (omega arith) ∙ w.payloads i g h,
        ReadsAll-cons size k v vs c cs after
            (w.reads after same (bits k (omega arith))
              (λ i g h. slots i (omega arith) (omega arith)) payloads)
            reads,
      )
    where
      ReadsAll-cons :
          (size k : ℕ) (v : Value D) (vs : List (Value D)) (c : Column) (cs : List Column)
          (after : List ℕ)
          → read_column encoding size k c after ≡ some v
          → ReadsAll size (suc k) vs cs after
          → ReadsAll size k (v ∷ vs) (c ∷ cs) after
      ReadsAll-cons size k v vs c cs after first rest zero u d e e' =
          ap (λ x. read_column encoding size x d after) (let z : k + 0 ≡ k = omega arith in z)
          ∙ ap (λ x. read_column encoding size k x after) (sym (some-injective c d e'))
          ∙ first
          ∙ e
      ReadsAll-cons size k v vs c cs after first rest (suc i) u d e e' =
          ap (λ x. read_column encoding size x d after)
            (let z : k + suc i ≡ suc k + i = omega arith in z)
          ∙ rest i u d e e'
