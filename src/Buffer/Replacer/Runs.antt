-- ===== src/Buffer/Replacer/Runs.antt =====
-- Every sequence of calls on the LRU-k replacer.
use oxtub.Base.{
  ℕ, ◌-◌, ◌≡◌, ap, sym, subst, ◌∙◌, inl, inr, Bool, Option, none, some, List, [], ◌∷◌, arith,
  Bool-cases, Option-cases, and_then, and_then-eq-some, sub_usize, sub_usize-eq-some,
}
use mathlib.Core.Option.{some-injective}
use oxtub.Base.Assoc.{get}
use oxtub.Buffer.Replacer.Access.{record_access-Inv, set_evictable-Inv}
use oxtub.Buffer.Replacer.Count.{count-remove}
use oxtub.Buffer.Replacer.Defs.{LruKReplacer, new, record_access, set_evictable, evict, remove}
use oxtub.Buffer.Replacer.Invariant.{Inv, new-Inv, drop_node-Inv}
use oxtub.Buffer.Replacer.Victim.{Evicts, evict-Evicts, evictable?_on}

pub Evicts-Inv :
    (r : LruKReplacer) (victim : Option ℕ) (r' : LruKReplacer) → Inv r → Evicts r victim r' → Inv r'
Evicts-Inv r none r' v e = subst Inv (sym e.0) v
Evicts-Inv r (some f) r' v e =
    let (n, p, on, _) = e.0 in
    subst Inv (sym e.1) (
      drop_node-Inv r v f (r.curr_size - 1)
        (omega (arith, v.counted, count-remove f r.nodes, evictable?_on f n r.nodes p on)))

pub evict-Inv :
    (r : LruKReplacer) (victim : Option ℕ) (r' : LruKReplacer)
    → Inv r
    → evict r ≡ some (victim, r')
    → Inv r'
evict-Inv r victim r' v h =
    let (victim₂, r₂, e, spec) = evict-Evicts r v in
    let same : (victim₂, r₂) ≡ (victim, r') = some-injective _ _ (sym e ∙ h) in
    subst Inv (ap (λ (p : Option ℕ × LruKReplacer). p.1) same) (Evicts-Inv r victim₂ r₂ v spec)

pub remove-Inv :
    (r : LruKReplacer) (f : ℕ) (r' : LruKReplacer) → Inv r → remove r f ≡ some r' → Inv r'
unfolding remove
remove-Inv r f r' v h = elim (Option-cases (get f r.nodes)) [
  | inl e ↦ absurd (cc (rw e at h))
  | inr (n, e) ↦ elim (Bool-cases n.is_evictable) [
    | inl on ↦
        let (size, e', done) = and_then-eq-some (sub_usize r.curr_size 1) _ (rw (e, on) at h) in
        let counts = sub_usize-eq-some r.curr_size 1 size e' in
        subst Inv (some-injective _ _ done) (
          drop_node-Inv r v f size
            (omega (arith, v.counted, count-remove f r.nodes, evictable?_on f n r.nodes e on)))
    | inr off ↦ absurd (cc (rw (e, off) at h))
  ]
]

-- A call on the replacer.
pub data Call : Type 0 where
  record_access_of : ℕ → Call
  set_evictable_of : ℕ → Bool → Call
  evict_one : Call
  remove_of : ℕ → Call

unfoldable pub step : LruKReplacer → Call → Option LruKReplacer
step r (record_access_of f) = record_access r f
step r (set_evictable_of f b) = set_evictable r f b
step r evict_one = and_then (evict r) (λ p. some p.1)
step r (remove_of f) = remove r f

unfoldable pub run : LruKReplacer → List Call → Option LruKReplacer
run r [] = some r
run r (c ∷ cs) = and_then (step r c) (λ r'. run r' cs)

step-Inv : (r : LruKReplacer) (c : Call) (r' : LruKReplacer) → Inv r → step r c ≡ some r' → Inv r'
unfolding step
step-Inv r (record_access_of f) r' v h = record_access-Inv r f r' v h
step-Inv r (set_evictable_of f b) r' v h = set_evictable-Inv r f b r' v h
step-Inv r evict_one r' v h =
    let (p, e, done) = and_then-eq-some (evict r) _ h in
    evict-Inv r p.0 r' v (e ∙ ap (λ x. some (p.0, x)) (some-injective _ _ done))
step-Inv r (remove_of f) r' v h = remove-Inv r f r' v h

run-Inv :
    (r : LruKReplacer) (cs : List Call) (r' : LruKReplacer) → Inv r → run r cs ≡ some r' → Inv r'
unfolding run
run-Inv r [] r' v h = subst Inv (some-injective _ _ h) v
run-Inv r (c ∷ cs) r' v h =
    let (r₁, e, rest) = and_then-eq-some (step r c) _ h in
    run-Inv r₁ cs r' (step-Inv r c r₁ v e) rest

-- From a fresh replacer, any sequence of calls that does not panic ends in a replacer that keeps
-- the invariant: histories of 1 to `k` past timestamps, no timestamp shared by two frames, frame
-- numbers in range, and `curr_size` the number of evictable frames.
pub run-new-Inv :
    (num_frames k : ℕ) (r : LruKReplacer) (cs : List Call) (r' : LruKReplacer)
    → new num_frames k ≡ some r
    → run r cs ≡ some r'
    → Inv r'
run-new-Inv num_frames k r cs r' e h = run-Inv r cs r' (new-Inv num_frames k r e) h
