-- ===== src/Buffer/Replacer/Victim.antt =====
-- Which frame `evict` of src/buffer/replacer/lru_k_replacer.rs takes.
use oxtub.Base.{
  ℕ, ◌-◌, ◌≤◌, ◌<◌, ◌≡◌, refl, ap, sym, subst, ◌∙◌, ◌≢◌, ◌⊎◌, inl, inr, Bool, true, false, Option,
  none, some, List, [], ◌∷◌, ltb, ◌==◌, length, last?, get_elem?, arith, Has, All-Has, Bool-cases,
  sub_usize-some, ==_refl,
}
use mathlib.Core.Option.{some-injective}
use oxtub.Base.Assoc.{get, Distinct}
use oxtub.Base.Assoc
use oxtub.Buffer.Replacer.Count.{count-remove, evictable?}
use oxtub.Buffer.Replacer.Defs.{
  LruKNode, LruKReplacer, Candidate, key_lt, better, victim_key, min_candidate, evict,
}
use oxtub.Buffer.Replacer.Invariant.{Inv}

last?-Has : (xs : List ℕ) → 1 ≤ length xs → (t : ℕ) × (last? xs ≡ some t) × Has t xs
last?-Has [] h = absurd (omega arith)
last?-Has (x ∷ []) h = (x, refl, inl refl)
last?-Has (x ∷ y ∷ ys) h = let (t, e, m) = last?-Has (y ∷ ys) (omega arith) in (t, e, inr m)

first-Has : (xs : List ℕ) → 1 ≤ length xs → (t : ℕ) × (get_elem? xs 0 ≡ some t) × Has t xs
first-Has [] h = absurd (omega arith)
first-Has (x ∷ xs) h = (x, refl, inl refl)

-- The key of a node that was used exists, and its time is one of the history.
abbrev Keyed : ℕ → LruKNode → Type 0
Keyed k n =
    (b : Bool) × (t : ℕ) × (victim_key k n ≡ some (b, t))
    × Has t n.history
    × (((b ≡ false) × (length n.history < k) × (last? n.history ≡ some t))
        ⊎ ((b ≡ true) × (k ≤ length n.history) × (get_elem? n.history 0 ≡ some t)))

victim_key-Keyed : (k : ℕ) (n : LruKNode) → 1 ≤ length n.history → Keyed k n
unfolding victim_key
victim_key-Keyed k n h = elim (Bool-cases (ltb (length n.history) k)) [
  | inl e ↦
      let (t, e', m) = last?-Has n.history h in
      (false, t, rw (e, e'), m, inl (refl, ground arith, e'))
  | inr e ↦
      let (t, e', m) = first-Has n.history h in
      (true, t, rw (e, e'), m, inr (refl, ground arith, e'))
]

key_lt_irrefl : (a : Bool × ℕ) → key_lt a a ≡ false
key_lt_irrefl (true, s) = ground arith
key_lt_irrefl (false, s) = ground arith

-- `b` is no smaller than `c`, which is no smaller than `a`.
key_ge_trans : (a b c : Bool × ℕ) → key_lt c a ≡ false → key_lt b c ≡ false → key_lt b a ≡ false
key_ge_trans (true, s) (true, t) (true, u) p q = ground arith
key_ge_trans (true, s) (true, t) (false, u) p q = cc
key_ge_trans (true, s) (false, t) (true, u) p q = cc
key_ge_trans (true, s) (false, t) (false, u) p q = cc
key_ge_trans (false, s) (true, t) (true, u) p q = refl
key_ge_trans (false, s) (true, t) (false, u) p q = refl
key_ge_trans (false, s) (false, t) (true, u) p q = cc
key_ge_trans (false, s) (false, t) (false, u) p q = ground arith

key_lt_asym : (a b : Bool × ℕ) → key_lt a b ≡ true → key_lt b a ≡ false
key_lt_asym (true, s) (true, t) h = ground arith
key_lt_asym (true, s) (false, t) h = cc
key_lt_asym (false, s) (true, t) h = refl
key_lt_asym (false, s) (false, t) h = ground arith

-- What the search returns: nothing if no node is evictable, and otherwise a node whose key no
-- evictable node undercuts.
abbrev Best : ℕ → List (ℕ × LruKNode) → Option Candidate → Type 0
Best k nodes none = (g : ℕ) (m : LruKNode) → get g nodes ≡ some m → m.is_evictable ≡ false
Best k nodes (some (key, f)) =
    ((n : LruKNode) × (get f nodes ≡ some n)
      × (n.is_evictable ≡ true)
      × (victim_key k n ≡ some key))
    × ((g : ℕ) (m : LruKNode) (key' : Bool × ℕ)
        → get g nodes ≡ some m
        → m.is_evictable ≡ true
        → victim_key k m ≡ some key'
        → key_lt key' key ≡ false)

abbrev AllUsed : List (ℕ × LruKNode) → Type 0
AllUsed nodes = (f : ℕ) (n : LruKNode) → get f nodes ≡ some n → 1 ≤ length n.history

-- A lookup in a longer list.
get-cons :
    (j f : ℕ) (w : LruKNode) (nodes : List (ℕ × LruKNode)) (n : LruKNode)
    → get j nodes ≡ none
    → get f nodes ≡ some n
    → get f ((j, w) ∷ nodes) ≡ some n
get-cons j f w nodes n d e = elim (Bool-cases (j == f)) [
  | inl same ↦ ground arith
  | inr other ↦ rw other e
]

get-cons_cases :
    (j f : ℕ) (w : LruKNode) (nodes : List (ℕ × LruKNode)) (n : LruKNode)
    → get f ((j, w) ∷ nodes) ≡ some n
    → (w ≡ n) ⊎ (get f nodes ≡ some n)
get-cons_cases j f w nodes n e = ground arith

-- A node that is passed over leaves the best one as it is.
skip-Best :
    (k j : ℕ) (w : LruKNode) (nodes : List (ℕ × LruKNode)) (best : Option Candidate)
    → get j nodes ≡ none
    → w.is_evictable ≡ false
    → Best k nodes best
    → Best k ((j, w) ∷ nodes) best
skip-Best k j w nodes none d off b = λ g m e. elim (get-cons_cases j g w nodes m e) [
  | inl same ↦ subst (λ (x : LruKNode). x.is_evictable ≡ false) same off
  | inr old ↦ b g m old
]
skip-Best k j w nodes (some (key, f)) d off b =
    let (n, e, on, e') = b.0 in
    (
      (n, get-cons j f w nodes n d e, on, e'),
      λ g m key' p q s. elim (get-cons_cases j g w nodes m p) [
        | inl same ↦ absurd (cc (subst (λ (x : LruKNode). x.is_evictable ≡ false) same off))
        | inr old ↦ b.1 g m key' old q s
      ],
    )

-- An evictable node is weighed against the best one of the rest.
weigh-Best :
    (k j : ℕ) (w : LruKNode) (key : Bool × ℕ) (nodes : List (ℕ × LruKNode))
    (best : Option Candidate)
    → get j nodes ≡ none
    → w.is_evictable ≡ true
    → victim_key k w ≡ some key
    → Best k nodes best
    → Best k ((j, w) ∷ nodes) (some (better (key, j) best))
weigh-Best k j w key nodes none d on e b = (
  (w, rw (==_refl j), on, e),
  λ g m key' p q s. elim (get-cons_cases j g w nodes m p) [
    | inl same ↦ same_key g m key' same s
    | inr old ↦ absurd (cc (sym (b g m old) ∙ q))
  ],
)
  where
    same_key :
        (g : ℕ) (m : LruKNode) (key' : Bool × ℕ)
        → w ≡ m
        → victim_key k m ≡ some key'
        → key_lt key' key ≡ false
    same_key g m key' same s =
        let e' : key ≡ key' = some-injective _ _ (sym e ∙ ap (victim_key k) same ∙ s) in
        subst (λ (x : Bool × ℕ). key_lt x key ≡ false) e' (key_lt_irrefl key)
weigh-Best k j w key nodes (some (key₂, g₂)) d on e b = elim (Bool-cases (key_lt key₂ key)) [
  | inl less ↦
      subst (λ (c : Candidate). Best k ((j, w) ∷ nodes) (some c)) {x = (key₂, g₂)} (rw less)
        (
          (b.0.0, get-cons j g₂ w nodes b.0.0 d b.0.1, b.0.2, b.0.3),
          λ g m key' p q s. elim (get-cons_cases j g w nodes m p) [
            | inl same ↦
                subst (λ (x : Bool × ℕ). key_lt x key₂ ≡ false) (same_key m key' same s)
                  (key_lt_asym key₂ key less)
            | inr old ↦ b.1 g m key' old q s
          ],
        )
  | inr more ↦
      subst (λ (c : Candidate). Best k ((j, w) ∷ nodes) (some c)) {x = (key, j)} (rw more)
        (
          (w, rw (==_refl j), on, e),
          λ g m key' p q s. elim (get-cons_cases j g w nodes m p) [
            | inl same ↦
                subst (λ (x : Bool × ℕ). key_lt x key ≡ false) (same_key m key' same s)
                  (key_lt_irrefl key)
            | inr old ↦ key_ge_trans key key' key₂ more (b.1 g m key' old q s)
          ],
        )
]
  where
    same_key : (m : LruKNode) (key' : Bool × ℕ) → w ≡ m → victim_key k m ≡ some key' → key ≡ key'
    same_key m key' same s = some-injective _ _ (sym e ∙ ap (victim_key k) same ∙ s)

min_candidate_on :
    (k j : ℕ) (w : LruKNode) (nodes : List (ℕ × LruKNode)) (best : Option Candidate)
    (key : Bool × ℕ)
    → min_candidate k nodes ≡ some best
    → w.is_evictable ≡ true
    → victim_key k w ≡ some key
    → min_candidate k ((j, w) ∷ nodes) ≡ some (some (better (key, j) best))
unfolding min_candidate
min_candidate_on k j w nodes best key e on e' = simp (e, on, e')

min_candidate_off :
    (k j : ℕ) (w : LruKNode) (nodes : List (ℕ × LruKNode)) (best : Option Candidate)
    → min_candidate k nodes ≡ some best
    → w.is_evictable ≡ false
    → min_candidate k ((j, w) ∷ nodes) ≡ some best
unfolding min_candidate
min_candidate_off k j w nodes best e off = simp (e, off)

min_candidate-Best :
    (k : ℕ) (nodes : List (ℕ × LruKNode))
    → Distinct nodes
    → AllUsed nodes
    → (best : Option Candidate) × (min_candidate k nodes ≡ some best) × Best k nodes best
unfolding min_candidate
min_candidate-Best k [] d u = (none, refl, λ g m e. absurd (cc e))
min_candidate-Best k ((j, w) ∷ nodes) d u =
    let (best, e, b) =
      min_candidate-Best k nodes d.1 (λ f n p. u f n (get-cons j f w nodes n d.0 p)) in
    elim (Bool-cases w.is_evictable) [
      | inl on ↦
          let (c, t, e', _, _) = victim_key-Keyed k w (u j w (rw (==_refl j))) in
          (
            some (better ((c, t), j) best),
            min_candidate_on k j w nodes best (c, t) e on e',
            weigh-Best k j w (c, t) nodes best d.0 on e' b,
          )
      | inr off ↦
          (best, min_candidate_off k j w nodes best e off, skip-Best k j w nodes best d.0 off b)
    ]

-- The node `n` is to go before `m`, in the words of LRU-k: an unknown backward k-distance (fewer
-- than `k` accesses) beats a known one, two unknown ones are decided by the later access, and of
-- two known ones the greater distance goes.
abbrev pub Outranks : ℕ → ℕ → LruKNode → LruKNode → Type 0
Outranks k now n m =
    ((length n.history < k) × (k ≤ length m.history))
    ⊎ ((length n.history < k)
        × (length m.history < k)
        × (s : ℕ) × (t : ℕ) × (last? n.history ≡ some s)
        × (last? m.history ≡ some t)
        × (s < t))
    ⊎ ((k ≤ length n.history)
        × (k ≤ length m.history)
        × (s : ℕ) × (t : ℕ) × (get_elem? n.history 0 ≡ some s)
        × (get_elem? m.history 0 ≡ some t)
        × (now - t < now - s))

-- What `evict` does: it finds no evictable frame, or it drops the one that outranks all others.
abbrev pub Evicts : LruKReplacer → Option ℕ → LruKReplacer → Type 0
Evicts r none r' =
    (r' ≡ r) × ((g : ℕ) (m : LruKNode) → get g r.nodes ≡ some m → m.is_evictable ≡ false)
Evicts r (some f) r' =
    ((n : LruKNode) × (get f r.nodes ≡ some n)
      × (n.is_evictable ≡ true)
      × ((g : ℕ) (m : LruKNode)
          → f ≢ g
          → get g r.nodes ≡ some m
          → m.is_evictable ≡ true
          → Outranks r.k r.current_timestamp n m))
    × (r' ≡ record r { nodes = Assoc.remove f r.nodes; curr_size = r.curr_size - 1 })

key_lt_same : (b c : Bool) (s t : ℕ) → b ≡ c → key_lt (c, t) (b, s) ≡ false → s ≤ t
key_lt_same true true s t e h = ground arith
key_lt_same true false s t e h = absurd (cc e)
key_lt_same false true s t e h = absurd (cc e)
key_lt_same false false s t e h = ground arith

key_lt_mixed : (b c : Bool) (s t : ℕ) → b ≡ true → c ≡ false → key_lt (c, t) (b, s) ≡ false → ⊥
key_lt_mixed b c s t e e' h = cc

pub evictable?_on :
    (f : ℕ) (n : LruKNode) (nodes : List (ℕ × LruKNode))
    → get f nodes ≡ some n
    → n.is_evictable ≡ true
    → evictable? (get f nodes) ≡ 1
evictable?_on f n nodes e on = simp (e, on)

Keyed-Outranks :
    (r : LruKReplacer) (f g : ℕ) (n m : LruKNode)
    → Inv r
    → f ≢ g
    → get f r.nodes ≡ some n
    → get g r.nodes ≡ some m
    → (kn : Keyed r.k n) → (km : Keyed r.k m) → key_lt (km.0, km.1) (kn.0, kn.1) ≡ false
    → Outranks r.k r.current_timestamp n m
Keyed-Outranks r f g n m v ne p q (b, s, e, hs, inl (eb, sn, ln)) (c, t, e', ht, inl (ec, sm, lm))
      o =
    let differ : s ≢ t =
      λ same. v.apart f g n m s ne p q hs (subst (λ x. Has x m.history) (sym same) ht) in
    inr (inl (sn, sm, s, t, ln, lm, omega (arith, key_lt_same b c s t (eb ∙ sym ec) o)))
Keyed-Outranks r f g n m v ne p q (b, s, e, hs, inl (eb, sn, ln)) (c, t, e', ht, inr (ec, sm, lm))
      o =
    inl (sn, sm)
Keyed-Outranks r f g n m v ne p q (b, s, e, hs, inr (eb, sn, ln)) (c, t, e', ht, inl (ec, sm, lm))
      o =
    absurd (key_lt_mixed b c s t eb ec o)
Keyed-Outranks r f g n m v ne p q (b, s, e, hs, inr (eb, sn, ln)) (c, t, e', ht, inr (ec, sm, lm))
      o =
    let differ : s ≢ t =
      λ same. v.apart f g n m s ne p q hs (subst (λ x. Has x m.history) (sym same) ht) in
    let seen = All-Has (λ x. x ≤ r.current_timestamp) m.history t (v.node g m q).past ht in
    inr (inr (sn, sm, s, t, ln, lm, omega (arith, key_lt_same b c s t (eb ∙ sym ec) o)))

-- In a replacer that keeps the invariant, `evict` returns. With no evictable frame it takes none and
-- changes nothing; else it drops the evictable frame that LRU-k names, and no other: one with
-- fewer than `k` accesses before one with `k`, then the one with the older timestamp.
pub evict-Evicts :
    (r : LruKReplacer)
    → Inv r
    → (victim : Option ℕ) × (r' : LruKReplacer) × (evict r ≡ some (victim, r')) × Evicts r victim r'
unfolding evict
evict-Evicts r v =
    let (best, e, b) = min_candidate-Best r.k r.nodes v.distinct (λ f n p. (v.node f n p).used) in
    go best e b
  where
    go :
        (best : Option Candidate)
        → min_candidate r.k r.nodes ≡ some best
        → Best r.k r.nodes best
        → (victim : Option ℕ) × (r' : LruKReplacer) × (evict r ≡ some (victim, r'))
          × Evicts r victim r'
    go none e b = (none, r, rw e, (refl, b))
    go (some (key, f)) e b =
        let (n, p, on, e₁) = b.0 in
        let nonempty : 1 ≤ r.curr_size =
          omega (arith, v.counted, count-remove f r.nodes, evictable?_on f n r.nodes p on) in
        (
          some f,
          record r { nodes = Assoc.remove f r.nodes; curr_size = r.curr_size - 1 },
          rw (e, sub_usize-some r.curr_size 1 nonempty),
          (
            (
              n,
              p,
              on,
              λ g m ne q on'.
                  let kn = victim_key-Keyed r.k n (v.node f n p).used in
                  let km = victim_key-Keyed r.k m (v.node g m q).used in
                  Keyed-Outranks r f g n m v ne p q kn km (
                    subst (λ (x : Bool × ℕ). key_lt (km.0, km.1) x ≡ false)
                      (some-injective _ _ (sym e₁ ∙ kn.2)) (b.1 g m (km.0, km.1) q on' km.2)),
            ),
            refl,
          ),
        )
