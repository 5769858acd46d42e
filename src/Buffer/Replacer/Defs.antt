-- ===== src/Buffer/Replacer/Defs.antt =====
-- src/buffer/replacer/lru_k_replacer.rs: the LRU-k replacement policy. A call that panics is
-- `none`. `self.nodes` is an association list in the map's iteration order.
use oxtub.Base.{
  ℕ, ◌+◌, Bool, true, false, not, Option, none, some, List, [], ◌∷◌, ◌++◌, ltb, leb, ◌==◌,
  if◌then◌else◌, length, last?, get_elem?, and_then, add_usize, sub_usize,
}
use oxtub.Base.Assoc.{get, insert, remove as remove_key}

pub record LruKNode : Type 0 where
  -- the last `k` timestamps, the oldest first
  pub history : List ℕ
  pub is_evictable : Bool

pub record LruKReplacer : Type 0 where
  pub nodes : List (ℕ × LruKNode)
  pub current_timestamp : ℕ
  pub curr_size : ℕ
  pub replacer_size : ℕ
  pub k : ℕ

abbrev pub new_node : LruKNode
new_node = record { history = []; is_evictable = false }

-- `LruKReplacer::new`
unfoldable pub new : ℕ → ℕ → Option LruKReplacer
new num_frames k =
    if k == 0
    then none
    else some (record {
      nodes = [];
      current_timestamp = 0;
      curr_size = 0;
      replacer_size = num_frames;
      k = k;
    })

-- `Vec::remove(0)`
abbrev pub remove_first : List ℕ → Option (List ℕ)
remove_first [] = none
remove_first (x ∷ xs) = some xs

-- The history after one more access.
unfoldable pub push_access : ℕ → List ℕ → ℕ → Option (List ℕ)
push_access k history now =
    and_then (if ltb k (length history + 1) then remove_first history else some history)
      λ kept. some (kept ++ now ∷ [])

abbrev pub or_insert : Option LruKNode → LruKNode
or_insert none = new_node
or_insert (some n) = n

unfoldable pub record_access : LruKReplacer → ℕ → Option LruKReplacer
record_access r frame_id =
    if leb r.replacer_size frame_id
    then none
    else and_then (add_usize r.current_timestamp 1) λ now.
      let node = or_insert (get frame_id r.nodes) in
      and_then (push_access r.k node.history now) λ history. some (record r {
        nodes = insert frame_id (record node { history = history }) r.nodes;
        current_timestamp = now;
      })

abbrev pub bool_eq : Bool → Bool → Bool
bool_eq true b = b
bool_eq false b = not b

unfoldable pub set_evictable : LruKReplacer → ℕ → Bool → Option LruKReplacer
set_evictable r frame_id evictable = and_then (get frame_id r.nodes) λ node.
    if bool_eq node.is_evictable evictable
    then some r
    else and_then (if evictable then add_usize r.curr_size 1 else sub_usize r.curr_size 1) λ size.
      some (record r {
        nodes = insert frame_id (record node { is_evictable = evictable }) r.nodes;
        curr_size = size;
      })

-- The key of `min_by_key`: a node with fewer than `k` accesses comes first, by its last access;
-- a node with `k` of them by its oldest one. `none` is the panic of `unwrap` and of `history[0]`.
unfoldable pub victim_key : ℕ → LruKNode → Option (Bool × ℕ)
victim_key k n =
    if ltb (length n.history) k
    then and_then (last? n.history) (λ t. some (false, t))
    else and_then (get_elem? n.history 0) (λ t. some (true, t))

-- `<` on the pairs, `false` before `true`
abbrev pub key_lt : Bool × ℕ → Bool × ℕ → Bool
key_lt (false, s) (false, t) = ltb s t
key_lt (false, s) (true, t) = true
key_lt (true, s) (false, t) = false
key_lt (true, s) (true, t) = ltb s t

-- A candidate: its key and its frame.
abbrev pub Candidate : Type 0
Candidate = (Bool × ℕ) × ℕ

-- `min_by_key` keeps the first of equal keys.
abbrev pub better : Candidate → Option Candidate → Candidate
better c none = c
better (key, f) (some (key', g)) = if key_lt key' key then (key', g) else (key, f)

-- `iter().filter(is_evictable).min_by_key(..)`
unfoldable pub min_candidate : ℕ → List (ℕ × LruKNode) → Option (Option Candidate)
min_candidate k [] = some none
min_candidate k ((f, n) ∷ nodes) = and_then (min_candidate k nodes) λ best.
    if n.is_evictable
    then and_then (victim_key k n) (λ key. some (some (better (key, f) best)))
    else some best

-- The frame that was evicted, if there is one, and the replacer without it.
unfoldable pub evict : LruKReplacer → Option (Option ℕ × LruKReplacer)
evict r = and_then (min_candidate r.k r.nodes) λ best. elim best [
  | none ↦ some (none, r)
  | some (key, f) ↦
      and_then (sub_usize r.curr_size 1)
        λ size. some (some f, record r { nodes = remove_key f r.nodes; curr_size = size })
]

unfoldable pub remove : LruKReplacer → ℕ → Option LruKReplacer
remove r frame_id = and_then (get frame_id r.nodes) λ node.
    if not node.is_evictable
    then none
    else and_then (sub_usize r.curr_size 1)
        λ size. some (record r { nodes = remove_key frame_id r.nodes; curr_size = size })

unfoldable pub size : LruKReplacer → ℕ
size r = r.curr_size
