-- ===== src/Buffer/Replacer/Count.antt =====
-- The number of evictable frames, under the map operations of lru_k_replacer.rs.
use oxtub.Base.{ℕ, ◌+◌, ◌≡◌, Bool, true, false, Option, none, some, List, [], ◌∷◌, arith}
use oxtub.Base.Assoc.{get, insert, remove as remove_key}
use oxtub.Buffer.Replacer.Defs.{LruKNode}

abbrev pub one_if : Bool → ℕ
one_if true = 1
one_if false = 0

abbrev pub evictable? : Option LruKNode → ℕ
evictable? none = 0
evictable? (some n) = one_if n.is_evictable

abbrev pub count : List (ℕ × LruKNode) → ℕ
count [] = 0
count ((f, n) ∷ m) = one_if n.is_evictable + count m

pub count-insert :
    (f : ℕ) (n : LruKNode) (m : List (ℕ × LruKNode))
    → count (insert f n m) + evictable? (get f m) ≡ one_if n.is_evictable + count m
count-insert f n [] = omega arith
count-insert f n ((g, w) ∷ m) = ground (arith, count-insert f n m)

pub count-remove :
    (f : ℕ) (m : List (ℕ × LruKNode)) → count (remove_key f m) + evictable? (get f m) ≡ count m
count-remove f [] = omega arith
count-remove f ((g, w) ∷ m) = ground (arith, count-remove f m)
