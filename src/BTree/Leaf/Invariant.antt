-- ===== src/BTree/Leaf/Invariant.antt =====
-- The well-formed leaf pages of src/storage/page/b_tree_leaf_page.rs.
use oxtub.Base.{
  ℕ, zero, suc, ◌+◌, ◌-◌, ◌≤◌, ◌<◌, ◌≡◌, refl, ap, ◌∙◌, subst, false, List, [], ◌∷◌, ◌++◌, leb,
  ◌==◌, if◌then◌else◌, length, All, arith, Bool-cases, inl, inr, eq_of_==,
}
use oxtub.BTree.Keys.{Entry}
use oxtub.BTree.Leaf.Defs.{
  LeafPage, insert_nth, remove_nth, contains, shift_up, shift_down, without, below, live_from,
  live_size,
}
use oxtub.BTree.Leaf.Tombs.{
  contains-shift_up_lt, contains-shift_up-suc, contains-shift_down_lt, contains-shift_down_ge,
  contains-without, contains-append, live_from_none,
}

abbrev pub Unique : List ℕ → Type 0
Unique [] = Unit
Unique (t ∷ ts) = (contains t ts ≡ false) × Unique ts

abbrev pub Marks : ℕ → List ℕ → Type 0
Marks n ts = All (λ t. t < n) ts

-- Every tombstone marks a slot of its own, and there is room for all entries and tombstones.
pub record LeafInv {K : Type 0} (cap : ℕ) (p : LeafPage K) : Type 0 where
  pub fits : length p.entries ≤ p.max_size
  pub capped : length p.tombstones ≤ cap
  pub marks : Marks (length p.entries) p.tombstones
  pub unique : Unique p.tombstones

pub shift_up-Marks : (k n : ℕ) (ts : List ℕ) → Marks n ts → Marks (suc n) (shift_up k ts)
shift_up-Marks k n [] m = tt
shift_up-Marks k n (t ∷ ts) m = (ground arith, shift_up-Marks k n ts m.1)

pub shift_up-length : (k : ℕ) (ts : List ℕ) → length (shift_up k ts) ≡ length ts
shift_up-length k [] = refl
shift_up-length k (t ∷ ts) = omega (arith, shift_up-length k ts)

pub shift_up-Unique : (k : ℕ) (ts : List ℕ) → Unique ts → Unique (shift_up k ts)
shift_up-Unique k [] u = tt
shift_up-Unique k (t ∷ ts) u = elim (Bool-cases (leb k t)) [
  | inl e ↦
      let up : t + 1 ≡ suc t = omega arith in
      (rw (e, up) (contains-shift_up-suc t k ts (ground arith) ∙ u.0), shift_up-Unique k ts u.1)
  | inr e ↦ (rw e (contains-shift_up_lt t k ts (ground arith) ∙ u.0), shift_up-Unique k ts u.1)
]

-- Removal of a slot below `suc n`.
pub shift_down-Marks :
    (k n : ℕ) (ts : List ℕ) → k ≤ n → Marks (suc n) ts → Marks n (shift_down k ts)
shift_down-Marks k n [] h m = tt
shift_down-Marks k n (t ∷ ts) h m = ground (arith, shift_down-Marks k n ts h m.1)

pub shift_down-length_le : (k : ℕ) (ts : List ℕ) → length (shift_down k ts) ≤ length ts
shift_down-length_le k [] = omega arith
shift_down-length_le k (t ∷ ts) = ground (arith, shift_down-length_le k ts)

pub shift_down-length :
    (k : ℕ) (ts : List ℕ) → contains k ts ≡ false → length (shift_down k ts) ≡ length ts
shift_down-length k [] h = refl
shift_down-length k (t ∷ ts) h = ground (arith, shift_down-length k ts)

pub shift_down-Unique : (k : ℕ) (ts : List ℕ) → Unique ts → Unique (shift_down k ts)
shift_down-Unique k [] u = tt
shift_down-Unique k (t ∷ ts) u = ground (
  arith,
  shift_down-Unique k ts u.1,
  contains-shift_down_lt t k ts,
  contains-shift_down_ge (t - 1) k ts,
  ap (λ x. contains x ts) (suc-pred t),
)
  where
    suc-pred : (t : ℕ) → suc (t - 1) ≡ (if t == 0 then 1 else t)
    suc-pred t = ground arith

pub without-Marks : (k n : ℕ) (ts : List ℕ) → Marks n ts → Marks n (without k ts)
without-Marks k n [] m = tt
without-Marks k n (t ∷ ts) m = ground (arith, without-Marks k n ts m.1)

pub without-length_le : (k : ℕ) (ts : List ℕ) → length (without k ts) ≤ length ts
without-length_le k [] = omega arith
without-length_le k (t ∷ ts) = ground (arith, without-length_le k ts)

pub without-Unique : (k : ℕ) (ts : List ℕ) → Unique ts → Unique (without k ts)
without-Unique k [] u = tt
without-Unique k (t ∷ ts) u = ground (arith, without-Unique k ts u.1, contains-without t k ts)

pub append-Unique :
    (ts : List ℕ) (t : ℕ) → Unique ts → contains t ts ≡ false → Unique (ts ++ t ∷ [])
append-Unique [] t u h = (refl, tt)
append-Unique (s ∷ ts) t u h = ground (arith, append-Unique ts t u.1, contains-append s ts (t ∷ []))

pub below-Marks : (k : ℕ) (ts : List ℕ) → Marks k (below k ts)
below-Marks k [] = tt
below-Marks k (t ∷ ts) = ground (arith, below-Marks k ts)

pub below-length_le : (k : ℕ) (ts : List ℕ) → length (below k ts) ≤ length ts
below-length_le k [] = omega arith
below-length_le k (t ∷ ts) = ground (arith, below-length_le k ts)

below-contains : (j k : ℕ) (ts : List ℕ) → contains j ts ≡ false → contains j (below k ts) ≡ false
below-contains j k [] h = refl
below-contains j k (t ∷ ts) h = ground (arith, below-contains j k ts)

pub below-Unique : (k : ℕ) (ts : List ℕ) → Unique ts → Unique (below k ts)
below-Unique k [] u = tt
below-Unique k (t ∷ ts) u = ground (arith, below-Unique k ts u.1, below-contains t k ts u.0)

pub Marks-mono : (m n : ℕ) (ts : List ℕ) → m ≤ n → Marks m ts → Marks n ts
Marks-mono m n [] h a = tt
Marks-mono m n (t ∷ ts) h a = (omega arith, Marks-mono m n ts h a.1)

module _ {K : Type 0} where
  pub insert_nth-length :
      (i : ℕ) (e : Entry K) (es : List (Entry K)) → length (insert_nth i e es) ≡ suc (length es)
  insert_nth-length zero e es = refl
  insert_nth-length (suc i) e [] = refl
  insert_nth-length (suc i) e (x ∷ es) = omega (arith, insert_nth-length i e es)

  pub remove_nth-length :
      (i : ℕ) (es : List (Entry K)) → i < length es → suc (length (remove_nth i es)) ≡ length es
  remove_nth-length i [] h = absurd (omega arith)
  remove_nth-length zero (x ∷ es) h = refl
  remove_nth-length (suc i) (x ∷ es) h = omega (arith, remove_nth-length i es (omega arith))

  live_from_skip :
      (i t : ℕ) (ts : List ℕ) (es : List (Entry K))
      → t < i
      → live_from i (t ∷ ts) es ≡ live_from i ts es
  live_from_skip i t ts [] h = refl
  live_from_skip i t ts (e ∷ es) h = ground (arith, live_from_skip (suc i) t ts es)

  -- Each tombstone that marks a slot of its own hides one entry.
  hide_one :
      (i t : ℕ) (ts : List ℕ) (es : List (Entry K))
      → i ≤ t
      → t < i + length es
      → contains t ts ≡ false
      → suc (length (live_from i (t ∷ ts) es)) ≡ length (live_from i ts es)
  hide_one i t ts [] h h' c = absurd (omega arith)
  hide_one i t ts (e ∷ es) h h' c = elim (Bool-cases (t == i)) [
    | inl same ↦
        let c' : contains i ts ≡ false = subst (λ x. contains x ts ≡ false) (eq_of_== t i same) c in
        rw (same, c') (ap suc (ap length (live_from_skip (suc i) t ts es (ground arith))))
    | inr other ↦ ground (arith, hide_one (suc i) t ts es)
  ]

  -- The entries are the live ones and those with a tombstone.
  pub live_from-length :
      (i : ℕ) (ts : List ℕ) (es : List (Entry K))
      → All (λ t. i ≤ t) ts
      → Marks (i + length es) ts
      → Unique ts
      → length (live_from i ts es) + length ts ≡ length es
  live_from-length i [] es a m u = rw live_from_none (omega arith)
  live_from-length i (t ∷ ts) es a m u =
      omega (arith, hide_one i t ts es a.0 m.0 u.0, live_from-length i ts es a.1 m.1 u.1)

All-zero : (ts : List ℕ) → All (λ t. 0 ≤ t) ts
All-zero [] = tt
All-zero (t ∷ ts) = (omega arith, All-zero ts)

-- `live_size` counts the live entries.
pub length-live :
    {K : Type 0} (cap : ℕ) (p : LeafPage K)
    → LeafInv cap p
    → length (live_from 0 p.tombstones p.entries) ≡ live_size p
length-live cap p v = omega (
  arith,
  live_from-length 0 p.tombstones p.entries (All-zero p.tombstones)
      (subst (λ n. Marks n p.tombstones) (omega arith) v.marks) v.unique,
)

pub tombstones_le_size :
    {K : Type 0} (cap : ℕ) (p : LeafPage K) → LeafInv cap p → length p.tombstones ≤ length p.entries
tombstones_le_size cap p v = omega (
  arith,
  live_from-length 0 p.tombstones p.entries (All-zero p.tombstones)
      (subst (λ n. Marks n p.tombstones) (omega arith) v.marks) v.unique,
)
