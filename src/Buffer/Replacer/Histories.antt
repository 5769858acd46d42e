-- ===== src/Buffer/Replacer/Histories.antt =====
-- The histories that `record_access` of src/buffer/replacer/lru_k_replacer.rs writes, against the log of
-- all accesses of each frame.
use oxtub.Base.{
  ℕ, ◌+◌, ◌<◌, ◌≡◌, ◌≢◌, refl, ap, sym, subst, ◌∙◌, inl, inr, Bool-cases, some, List, [], ◌∷◌, ◌++◌,
  ◌==◌, if◌then◌else◌, length, arith, All, and_then, eq_of_==, ne_of_==, usize_mod,
}
use mathlib.Core.List.{append-nil, append_assoc}
use oxtub.Base.Assoc.{get, insert, get-insert_self, get-insert_ne}
use oxtub.Buffer.Replacer.Access.{record_access-Inv}
use oxtub.Buffer.Replacer.Defs.{LruKNode, LruKReplacer, or_insert, push_access, record_access}
use oxtub.Buffer.Replacer.Effects.{record_access-runs}
use oxtub.Buffer.Replacer.History.{last_n, push_access-last_n}
use oxtub.Buffer.Replacer.Invariant.{Inv}
use oxtub.Buffer.Replacer.Runs.{Call, record_access_of, run, step}

-- What the replacer has of a frame; nothing, if it does not know it.
abbrev pub history_of : LruKReplacer → ℕ → List ℕ
history_of r f = (or_insert (get f r.nodes)).history

abbrev pub accesses : List ℕ → List Call
accesses [] = []
accesses (f ∷ fs) = record_access_of f ∷ accesses fs

-- The times at which a frame is accessed, when the clock stands at `now` before the first access.
abbrev pub times : ℕ → ℕ → List ℕ → List ℕ
times f now [] = []
times f now (g ∷ gs) = let rest = times f (now + 1) gs in if g == f then (now + 1) ∷ rest else rest

-- One access: the history of the frame is that of the longer log, and the other frames keep theirs.
pub record_access-last_n :
    (r : LruKReplacer) (f : ℕ) (log : List ℕ)
    → Inv r
    → f < r.replacer_size
    → r.current_timestamp + 1 < usize_mod
    → history_of r f ≡ last_n r.k log
    → (r' : LruKReplacer) × (record_access r f ≡ some r')
      × Inv r'
      × (history_of r' f ≡ last_n r.k (log ++ (r.current_timestamp + 1) ∷ []))
      × ((g : ℕ) → f ≢ g → get g r'.nodes ≡ get g r.nodes)
      × (r'.current_timestamp ≡ r.current_timestamp + 1)
      × (r'.replacer_size ≡ r.replacer_size)
      × (r'.k ≡ r.k)
record_access-last_n r f log v inside clock e =
    let now = r.current_timestamp + 1 in
    let history = last_n r.k (log ++ now ∷ []) in
    let n : LruKNode = record (or_insert (get f r.nodes)) { history = history } in
    let runs =
      record_access-runs r f history inside clock
        (ap (λ h. push_access r.k h now) e ∙ push_access-last_n r.k log now v.k_pos) in
    (
      record r { nodes = insert f n r.nodes; current_timestamp = now },
      runs,
      record_access-Inv r f _ v runs,
      ap (λ o. (or_insert o).history) (get-insert_self f n r.nodes),
      λ g ne. get-insert_ne f g n r.nodes ne,
      refl,
      refl,
      refl,
    )

-- The logs after one access.
abbrev logged : ℕ → ℕ → (ℕ → List ℕ) → ℕ → List ℕ
logged f now log g = if f == g then log g ++ now ∷ [] else log g

logged-times :
    (f now : ℕ) (log : ℕ → List ℕ) (fs : List ℕ) (g : ℕ)
    → logged f (now + 1) log g ++ times g (now + 1) fs ≡ log g ++ times g now (f ∷ fs)
logged-times f now log fs g = elim (Bool-cases (f == g)) [
  | inl same ↦ rw same (append_assoc (log g) ((now + 1) ∷ []) (times g (now + 1) fs))
  | inr other ↦ rw other refl
]

logged-last_n :
    (r r' : LruKReplacer) (f now : ℕ) (log : ℕ → List ℕ)
    → history_of r' f ≡ last_n r.k (log f ++ now ∷ [])
    → ((g : ℕ) → f ≢ g → get g r'.nodes ≡ get g r.nodes)
    → ((g : ℕ) → history_of r g ≡ last_n r.k (log g))
    → r'.k ≡ r.k
    → (g : ℕ) → history_of r' g ≡ last_n r'.k (logged f now log g)
logged-last_n r r' f now log here there kept k g = elim (Bool-cases (f == g)) [
  | inl same ↦
      rw (same, k)
        (subst (λ x. history_of r' x ≡ last_n r.k (log x ++ now ∷ [])) (eq_of_== f g same) here)
  | inr other ↦
      rw (other, k) (ap (λ o. (or_insert o).history) (there g (ne_of_== f g other)) ∙ kept g)
]

-- Any sequence of accesses to frames below the size, from a replacer in order whose histories are the
-- last `k` times of some logs, one for each frame, and whose clock does not reach the end of usize,
-- runs without a panic: the history of each frame is then the last `k` times of its log and of the
-- accesses to it in the sequence, and the replacer is in order.
pub run-last_n :
    (r : LruKReplacer) (log : ℕ → List ℕ) (fs : List ℕ)
    → Inv r
    → All (λ f. f < r.replacer_size) fs
    → r.current_timestamp + length fs < usize_mod
    → ((f : ℕ) → history_of r f ≡ last_n r.k (log f))
    → (r' : LruKReplacer) × (run r (accesses fs) ≡ some r')
      × Inv r'
      × ((f : ℕ) → history_of r' f ≡ last_n r.k (log f ++ times f r.current_timestamp fs))
unfolding run step
run-last_n r log [] v inside clock kept =
    (r, refl, v, λ f. kept f ∙ ap (last_n r.k) (sym (append-nil (log f))))
run-last_n r log (f ∷ fs) v inside clock kept =
    let (q, runs, v', here, there, time, size, k) =
      record_access-last_n r f (log f) v inside.0 (omega arith) (kept f) in
    let now = r.current_timestamp + 1 in
    let (r', rest, v'', histories) =
      run-last_n q (logged f now log) fs v' (subst (λ n. All (λ g. g < n) fs) (sym size) inside.1)
        (omega (arith, time)) (logged-last_n r q f now log here there kept k) in
    (
      r',
      ap (λ o. and_then o (λ x. run x (accesses fs))) runs ∙ rest,
      v'',
      λ g.
          histories g
          ∙ rw (k, time) (ap (last_n r.k) (logged-times f r.current_timestamp log fs g)),
    )
