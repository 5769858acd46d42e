-- ===== src/Buffer/Replacer/Effects.antt =====
-- What the calls of the buffer pool on src/buffer/replacer/lru_k_replacer.rs do to the map of frames.
use oxtub.Base.{
  ℕ, zero, suc, ◌+◌, ◌-◌, ◌≤◌, ◌<◌, ◌≡◌, refl, ap, sym, ◌∙◌, inl, inr, Bool, true, false, Option,
  none, some, List, [], ◌∷◌, ◌++◌, ltb, leb, ◌==◌, if◌then◌else◌, length, arith, Bool-cases,
  add_usize-some, sub_usize-some, usize_mod,
}
use oxtub.Base.Assoc.{get, insert, get-insert, get-remove, remove as remove_key}
use oxtub.Buffer.Replacer.Access.{record_access-Inv, set_evictable-Inv}
use oxtub.Buffer.Replacer.Count.{count-remove, one_if, evictable?}
use oxtub.Buffer.Replacer.Defs.{
  LruKNode, LruKReplacer, or_insert, push_access, record_access, set_evictable, remove, bool_eq,
}
use oxtub.Buffer.Replacer.Invariant.{Inv}
use oxtub.Buffer.Replacer.Runs.{remove-Inv}

-- The node of one frame is written, and the others stay.
pub record Wrote (r : LruKReplacer) (f : ℕ) (b : Bool) (r' : LruKReplacer) : Type 0 where
  pub inv : Inv r'
  pub node : LruKNode
  pub flag : node.is_evictable ≡ b
  pub at : (g : ℕ) → get g r'.nodes ≡ (if f == g then some node else get g r.nodes)
  pub size : r'.replacer_size ≡ r.replacer_size

push_access-some :
    (k : ℕ) (history : List ℕ) (now : ℕ)
    → (after : List ℕ) × (push_access (suc k) history now ≡ some after)
unfolding push_access
push_access-some k [] now = (now ∷ [], ground arith)
push_access-some k (x ∷ xs) now = elim (Bool-cases (ltb (suc k) (length (x ∷ xs) + 1))) [
  | inl e ↦ (xs ++ now ∷ [], rw e refl)
  | inr e ↦ ((x ∷ xs) ++ now ∷ [], rw e refl)
]

push_access-runs :
    (k : ℕ) (history : List ℕ) (now : ℕ)
    → 1 ≤ k
    → (after : List ℕ) × (push_access k history now ≡ some after)
push_access-runs zero history now h = absurd (omega arith)
push_access-runs (suc k) history now h = push_access-some k history now

pub record_access-runs :
    (r : LruKReplacer) (f : ℕ) (history : List ℕ)
    → f < r.replacer_size
    → r.current_timestamp + 1 < usize_mod
    → push_access r.k (or_insert (get f r.nodes)).history (r.current_timestamp + 1) ≡ some history
    → record_access r f
      ≡ some (record r {
        nodes = insert f (record (or_insert (get f r.nodes)) { history = history }) r.nodes;
        current_timestamp = r.current_timestamp + 1;
      })
unfolding record_access
record_access-runs r f history h clock e =
    let inside : leb r.replacer_size f ≡ false = ground arith in
    simp (inside, add_usize-some r.current_timestamp 1 clock, e)

pub record_access-Wrote :
    (r : LruKReplacer) (f : ℕ)
    → Inv r
    → r.current_timestamp + 1 < usize_mod
    → f < r.replacer_size
    → (r' : LruKReplacer) × (record_access r f ≡ some r')
      × Wrote r f (or_insert (get f r.nodes)).is_evictable r'
      × (r'.curr_size ≡ r.curr_size)
record_access-Wrote r f v clock h =
    let (history, e) =
      push_access-runs r.k (or_insert (get f r.nodes)).history (r.current_timestamp + 1) v.k_pos in
    let n : LruKNode = record (or_insert (get f r.nodes)) { history = history } in
    let runs = record_access-runs r f history h clock e in
    (
      record r { nodes = insert f n r.nodes; current_timestamp = r.current_timestamp + 1 },
      runs,
      record {
        inv = record_access-Inv r f _ v runs;
        node = n;
        flag = refl;
        at = λ g. get-insert f g n r.nodes;
        size = refl;
      },
      refl,
    )

pub written :
    (r q : LruKReplacer) (f : ℕ) {b : Bool} (w : Wrote r f b q) → get f q.nodes ≡ some w.node
written r q f w = w.at f ∙ here w.node (get f r.nodes)
  where
    here : (n : LruKNode) (o : Option LruKNode) → (if f == f then some n else o) ≡ some n
    here n o = ground arith

set_same :
    (r : LruKReplacer) (f : ℕ) (n : LruKNode) (b : Bool)
    → get f r.nodes ≡ some n
    → n.is_evictable ≡ b
    → set_evictable r f b ≡ some r
unfolding set_evictable
set_same r f n true e h = simp (e, h)
set_same r f n false e h = simp (e, h)

set_changed :
    (r : LruKReplacer) (f : ℕ) (n : LruKNode) (b : Bool)
    → Inv r
    → r.curr_size + 1 < usize_mod
    → get f r.nodes ≡ some n
    → bool_eq n.is_evictable b ≡ false
    → (size : ℕ) × (set_evictable r f b
        ≡ some (record r {
          nodes = insert f (record n { is_evictable = b }) r.nodes;
          curr_size = size;
        }))
unfolding set_evictable
set_changed r f n true v room e h =
    (r.curr_size + 1, simp (e, h, add_usize-some r.curr_size 1 room))
set_changed r f n false v room e h =
    let on : n.is_evictable ≡ true = ground arith in
    let counted : 1 ≤ r.curr_size =
      omega (arith, v.counted, count-remove f r.nodes, ap evictable? e, ap one_if on) in
    (r.curr_size - 1, simp (e, h, sub_usize-some r.curr_size 1 counted))

bool_eq_sound : (a b : Bool) → bool_eq a b ≡ true → a ≡ b
bool_eq_sound true b h = sym h
bool_eq_sound false true h = cc
bool_eq_sound false false h = refl

get_same :
    (f g : ℕ) (n : LruKNode) (nodes : List (ℕ × LruKNode))
    → get f nodes ≡ some n
    → get g nodes ≡ (if f == g then some n else get g nodes)
get_same f g n nodes e = ground arith

pub set_evictable-Wrote :
    (r : LruKReplacer) (f : ℕ) (n : LruKNode) (b : Bool)
    → Inv r
    → r.curr_size + 1 < usize_mod
    → get f r.nodes ≡ some n
    → (r' : LruKReplacer) × (set_evictable r f b ≡ some r') × Wrote r f b r'
set_evictable-Wrote r f n b v room e = elim (Bool-cases (bool_eq n.is_evictable b)) [
  | inl same ↦
      let flag = bool_eq_sound n.is_evictable b same in
      (
        r,
        set_same r f n b e flag,
        record { inv = v; node = n; flag = flag; at = λ g. get_same f g n r.nodes e; size = refl },
      )
  | inr differ ↦
      let (size, runs) = set_changed r f n b v room e differ in
      (
        record r { nodes = insert f (record n { is_evictable = b }) r.nodes; curr_size = size },
        runs,
        record {
          inv = set_evictable-Inv r f b _ v runs;
          node = record n { is_evictable = b };
          flag = refl;
          at = λ g. get-insert f g (record n { is_evictable = b }) r.nodes;
          size = refl;
        },
      )
]

-- A frame whose flag has the value already.
pub same-Wrote :
    (r : LruKReplacer) (f : ℕ) (n : LruKNode)
    → Inv r
    → get f r.nodes ≡ some n
    → Wrote r f n.is_evictable r
same-Wrote r f n v e = record {
  inv = v;
  node = n;
  flag = refl;
  at = λ g. get_same f g n r.nodes e;
  size = refl;
}

-- `record_access` and then `set_evictable`, as the pool calls them.
pub touch-Wrote :
    (r : LruKReplacer) (f : ℕ) (b : Bool)
    → Inv r
    → r.current_timestamp + 1 < usize_mod
    → r.curr_size + 1 < usize_mod
    → f < r.replacer_size
    → (q : LruKReplacer) × (r' : LruKReplacer) × (record_access r f ≡ some q)
      × (set_evictable q f b ≡ some r')
      × Wrote r f b r'
touch-Wrote r f b v clock room h =
    let (q, runs, w, size) = record_access-Wrote r f v clock h in
    let (r', sets, w') =
      set_evictable-Wrote q f w.node b w.inv (omega (arith, size)) (written r q f w) in
    (
      q,
      r',
      runs,
      sets,
      record {
        inv = w'.inv;
        node = w'.node;
        flag = w'.flag;
        at = λ g. w'.at g ∙ over f g w'.node w.node (get g r.nodes) (get g q.nodes) (w.at g);
        size = w'.size ∙ w.size;
      },
    )
  where
    over :
        (f g : ℕ) (n m : LruKNode) (old new : Option LruKNode)
        → new ≡ (if f == g then some m else old)
        → (if f == g then some n else new) ≡ (if f == g then some n else old)
    over f g n m old new e = ground arith

pub remove-Wrote :
    (r : LruKReplacer) (f : ℕ) (n : LruKNode)
    → Inv r
    → get f r.nodes ≡ some n
    → n.is_evictable ≡ true
    → (r' : LruKReplacer) × (remove r f ≡ some r')
      × Inv r'
      × ((g : ℕ) → get g r'.nodes ≡ (if f == g then none else get g r.nodes))
      × (r'.replacer_size ≡ r.replacer_size)
unfolding remove
remove-Wrote r f n v e on =
    let counted : 1 ≤ r.curr_size =
      omega (arith, v.counted, count-remove f r.nodes, ap evictable? e, ap one_if on) in
    let runs = removes r f n e on counted in
    (
      record r { nodes = remove_key f r.nodes; curr_size = r.curr_size - 1 },
      runs,
      remove-Inv r f _ v runs,
      λ g. get-remove f g r.nodes v.distinct,
      refl,
    )
  where
    removes :
        (r : LruKReplacer) (f : ℕ) (n : LruKNode)
        → get f r.nodes ≡ some n
        → n.is_evictable ≡ true
        → 1 ≤ r.curr_size
        → remove r f ≡ some (record r { nodes = remove_key f r.nodes; curr_size = r.curr_size - 1 })
    removes r f n e on counted = simp (e, on, sub_usize-some r.curr_size 1 counted)
