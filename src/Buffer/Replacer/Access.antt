-- ===== src/Buffer/Replacer/Access.antt =====
-- `record_access` and `set_evictable` of src/buffer/replacer/lru_k_replacer.rs keep the invariant.
use oxtub.Base.{
  ℕ, ◌+◌, ◌≤◌, ◌<◌, ◌≡◌, refl, ap, sym, subst, and_then-eq-some, add_usize-eq-some,
  sub_usize-eq-some, ◌≢◌, ◌⊎◌, inl, inr, Bool, true, false, Option, none, some, List, [], ◌∷◌, ◌++◌,
  ltb, leb, length, arith, Has, Has-append, Bool-cases, Option-cases, All, All-Has, All-append,
  length-append, add_usize, sub_usize,
}
use mathlib.Core.Option.{some-injective}
use oxtub.Base.Assoc.{get, insert}
use oxtub.Buffer.Replacer.Count.{count-insert, one_if, evictable?}
use oxtub.Buffer.Replacer.Defs.{
  LruKNode, LruKReplacer, or_insert, push_access, record_access, set_evictable,
}
use oxtub.Buffer.Replacer.Invariant.{Inv, put_node-Inv, past_mono}

-- A timestamp of the new history is an old one or now.
push_access-Has :
    (k : ℕ) (history : List ℕ) (now : ℕ) (after : List ℕ) (t : ℕ)
    → push_access k history now ≡ some after
    → Has t after
    → Has t history ⊎ (now ≡ t)
unfolding push_access
push_access-Has k [] now after t h m = ground arith
push_access-Has k (x ∷ xs) now after t h m =
    ground (arith, Has-append t xs (now ∷ []), Has-append t (x ∷ xs) (now ∷ []))

push_access-length :
    (k : ℕ) (history : List ℕ) (now : ℕ) (after : List ℕ)
    → 1 ≤ k
    → length history ≤ k
    → push_access k history now ≡ some after
    → (1 ≤ length after) × (length after ≤ k)
unfolding push_access
push_access-length k [] now after p q h = ground arith
push_access-length k (x ∷ xs) now after p q h =
    ground (arith, length-append xs (now ∷ []), length-append (x ∷ xs) (now ∷ []))

-- What a successful access does.
record_access_cases :
    (r : LruKReplacer) (f : ℕ) {r' : LruKReplacer}
    → record_access r f ≡ some r'
    → (f < r.replacer_size)
      × (history : List ℕ) × (push_access r.k
            (or_insert (get f r.nodes)).history
            (r.current_timestamp + 1)
          ≡ some history)
      × (r' ≡ record r {
        nodes = insert f (record (or_insert (get f r.nodes)) { history = history }) r.nodes;
        current_timestamp = r.current_timestamp + 1;
      })
unfolding record_access
record_access_cases r f {r'} h = elim (Bool-cases (leb r.replacer_size f)) [
  | inl e ↦ absurd (cc (rw e at h))
  | inr e ↦
      let (now, e₁, rest) = and_then-eq-some (add_usize r.current_timestamp 1) _ (rw e at h) in
      let (history, e₂, done) =
        and_then-eq-some (push_access r.k (or_insert (get f r.nodes)).history now) _ rest in
      let at_now = add_usize-eq-some r.current_timestamp 1 now e₁ in
      (ground arith, history, rw (← at_now) e₂, ground arith)
]

push_access-past :
    (k : ℕ) (history : List ℕ) (now : ℕ) (after : List ℕ)
    → All (λ x. x ≤ now) history
    → push_access k history now ≡ some after
    → All (λ x. x ≤ now) after
unfolding push_access
push_access-past k [] now after a h = ground arith
push_access-past k (x ∷ xs) now after a h = elim (Bool-cases (ltb k (length (x ∷ xs) + 1))) [
  | inl e ↦
      subst (All (λ t. t ≤ now)) (some-injective (xs ++ now ∷ []) after (rw e at h))
        (All-append (λ t. t ≤ now) xs (now ∷ []) a.1 (omega arith))
  | inr e ↦
      subst (All (λ t. t ≤ now)) (some-injective (x ∷ xs ++ now ∷ []) after (rw e at h))
        (All-append (λ t. t ≤ now) (x ∷ xs) (now ∷ []) a (omega arith))
]

-- The node that an access extends: an old one, or a fresh one without history.
or_insert-NodeInv :
    (r : LruKReplacer) (f : ℕ)
    → Inv r
    → let n = or_insert (get f r.nodes) in
      (length n.history ≤ r.k) × All (λ t. t ≤ r.current_timestamp) n.history
or_insert-NodeInv r f v = elim (Option-cases (get f r.nodes)) [
  | inl e ↦ rw e (omega arith, tt)
  | inr (n, e) ↦ rw e ((v.node f n e).bounded, (v.node f n e).past)
]

or_insert-own :
    (r : LruKReplacer) (f : ℕ)
    → Inv r
    → (g : ℕ) (m : LruKNode) (t : ℕ) → f ≢ g
    → get g r.nodes ≡ some m
    → Has t (or_insert (get f r.nodes)).history
    → Has t m.history
    → ⊥
or_insert-own r f v g m t ne q a b = elim (Option-cases (get f r.nodes)) [
  | inl e ↦ elim (subst (λ (o : Option LruKNode). Has t (or_insert o).history) e a) [ ]
  | inr (n, e) ↦
      v.apart f g n m t ne e q (subst (λ (o : Option LruKNode). Has t (or_insert o).history) e a) b
]

-- `one_if` of the node that is there, if there is none it is not evictable.
or_insert-evictable? : (o : Option LruKNode) → evictable? o ≡ one_if (or_insert o).is_evictable
or_insert-evictable? none = refl
or_insert-evictable? (some n) = refl

pub record_access-Inv :
    (r : LruKReplacer) (f : ℕ) (r' : LruKReplacer) → Inv r → record_access r f ≡ some r' → Inv r'
record_access-Inv r f r' v h =
    let (in_range, history, pushed, e) = record_access_cases r f h in
    let now = r.current_timestamp + 1 in
    let old = or_insert (get f r.nodes) in
    let (fits, past) = or_insert-NodeInv r f v in
    let past' = past_mono r.current_timestamp now old.history (omega arith) past in
    let (used, bounded) = push_access-length r.k old.history now history v.k_pos fits pushed in
    subst Inv (sym e) (
      put_node-Inv r v f (record old { history = history }) now r.curr_size in_range (omega arith)
        (record {
          used = used;
          bounded = bounded;
          past = push_access-past r.k old.history now history past' pushed;
        })
        (λ g m t ne q a b. elim (push_access-Has r.k old.history now history t pushed a) [
          | inl seen ↦ or_insert-own r f v g m t ne q seen b
          | inr fresh ↦
              let bound =
                All-Has (λ x. x ≤ r.current_timestamp) m.history t (v.node g m q).past b in
              absurd (omega arith)
        ])
        (omega (
          arith,
          v.counted,
          count-insert f (record old { history = history }) r.nodes,
          or_insert-evictable? (get f r.nodes),
        )))

-- What a successful `set_evictable` does to the node that it finds.
abbrev Toggled : LruKReplacer → ℕ → Bool → LruKNode → LruKReplacer → Type 0
Toggled r f b n r' =
    ((n.is_evictable ≡ b) × (r' ≡ r))
    ⊎ ((size : ℕ) × (size + one_if n.is_evictable ≡ r.curr_size + one_if b)
        × (r' ≡ record r {
          nodes = insert f (record n { is_evictable = b }) r.nodes;
          curr_size = size;
        }))

set_evictable-Toggled :
    (r : LruKReplacer) (f : ℕ) (b : Bool) (n : LruKNode) (r' : LruKReplacer)
    → get f r.nodes ≡ some n
    → set_evictable r f b ≡ some r'
    → Toggled r f b n r'
unfolding set_evictable
set_evictable-Toggled r f true n r' e h = elim (Bool-cases n.is_evictable) [
  | inl c ↦ inl (c, ground arith)
  | inr c ↦
      let (size, e', done) = and_then-eq-some (add_usize r.curr_size 1) _ (rw (e, c) at h) in
      inr (
        size,
        rw c (omega (arith, add_usize-eq-some r.curr_size 1 size e')),
        sym (some-injective _ _ done),
      )
]
set_evictable-Toggled r f false n r' e h = elim (Bool-cases n.is_evictable) [
  | inl c ↦
      let (size, e', done) = and_then-eq-some (sub_usize r.curr_size 1) _ (rw (e, c) at h) in
      inr (
        size,
        rw c (omega (arith, sub_usize-eq-some r.curr_size 1 size e')),
        sym (some-injective _ _ done),
      )
  | inr c ↦ inl (c, ground arith)
]

pub set_evictable-Inv :
    (r : LruKReplacer) (f : ℕ) (b : Bool) (r' : LruKReplacer)
    → Inv r
    → set_evictable r f b ≡ some r'
    → Inv r'
unfolding set_evictable
set_evictable-Inv r f b r' v h = elim (Option-cases (get f r.nodes)) [
  | inl e ↦ absurd (cc (rw e at h))
  | inr (n, e) ↦ elim (set_evictable-Toggled r f b n r' e h) [
    | inl (_, same) ↦ subst Inv (sym same) v
    | inr (size, counts, changed) ↦
        let w = v.node f n e in
        subst Inv (sym changed) (
          put_node-Inv r v f (record n { is_evictable = b }) r.current_timestamp size
            (v.frame f n e) (omega arith)
            (record { used = w.used; bounded = w.bounded; past = w.past })
            (λ g m t ne q x y. v.apart f g n m t ne e q x y)
            (omega (
              arith,
              v.counted,
              count-insert f (record n { is_evictable = b }) r.nodes,
              ap evictable? e,
            )))
  ]
]
