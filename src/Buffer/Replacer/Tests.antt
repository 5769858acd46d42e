-- ===== src/Buffer/Replacer/Tests.antt =====
-- Witnesses, at the scenarios of the tests in src/buffer/replacer/lru_k_replacer.rs.
use oxtub.Base.{
  ℕ, ◌≡◌, refl, true, Option, some, List, [], ◌∷◌, ◌++◌, ◌==◌, inl, inr, Bool-cases, arith,
  add_usize, sub_usize, usize_mod,
}
use oxtub.Buffer.Replacer.Defs.{
  LruKReplacer, new, push_access, record_access, set_evictable, victim_key, min_candidate, evict,
}
use oxtub.Buffer.Replacer.Histories.{history_of, accesses, times, run-last_n}
use oxtub.Buffer.Replacer.History.{last_n}
use oxtub.Buffer.Replacer.Invariant.{Inv}
use oxtub.Buffer.Replacer.Runs.{Call, record_access_of, set_evictable_of, run, step, run-new-Inv}
use oxtub.Buffer.Replacer.Victim.{Evicts, evict-Evicts}

abbrev fresh : LruKReplacer
fresh = record { nodes = []; current_timestamp = 0; curr_size = 0; replacer_size = 10; k = 2 }

-- Frames 1 and 2 twice each, then frame 1 again; both are evictable.
abbrev calls : List Call
calls =
    record_access_of 1
    ∷ record_access_of 2
    ∷ record_access_of 1
    ∷ record_access_of 2
    ∷ record_access_of 1
    ∷ set_evictable_of 1 true
    ∷ set_evictable_of 2 true
    ∷ []

abbrev busy : LruKReplacer
busy = record {
  nodes =
      (1, record { history = 3 ∷ 5 ∷ []; is_evictable = true })
      ∷ (2, record { history = 2 ∷ 4 ∷ []; is_evictable = true })
      ∷ [];
  current_timestamp = 5;
  curr_size = 2;
  replacer_size = 10;
  k = 2;
}

run-busy : run fresh calls ≡ some busy
unfolding run step record_access set_evictable push_access add_usize sub_usize
run-busy = refl

new-fresh : new 10 2 ≡ some fresh
unfolding new
new-fresh = refl

busy-Inv : Inv busy
busy-Inv = run-new-Inv 10 2 fresh calls busy new-fresh run-busy

-- `only_last_k_timestamps_retained`
evict-busy : (r : LruKReplacer) × (evict busy ≡ some (some 2, r))
unfolding evict min_candidate victim_key sub_usize
evict-busy = (_, refl)

run-new-Inv_example : Inv busy
run-new-Inv_example = run-new-Inv 10 2 fresh calls busy new-fresh run-busy

evict-Evicts_example :
    (victim : Option ℕ) × (r : LruKReplacer) × (evict busy ≡ some (victim, r))
    × Evicts busy victim r
evict-Evicts_example = evict-Evicts busy busy-Inv

-- Frame 7 was not used before.
run-last_n_example :
    (r : LruKReplacer) × (run busy (accesses (7 ∷ 2 ∷ 7 ∷ 7 ∷ [])) ≡ some r)
    × Inv r
    × ((f : ℕ) → history_of r f ≡ last_n 2 (history_of busy f ++ times f 5 (7 ∷ 2 ∷ 7 ∷ 7 ∷ [])))
unfolding usize_mod
run-last_n_example =
    run-last_n busy (history_of busy) (7 ∷ 2 ∷ 7 ∷ 7 ∷ []) busy-Inv
      (omega arith, (omega arith, (omega arith, (omega arith, tt)))) (omega arith) busy-last_n
  where
    busy-last_n : (f : ℕ) → history_of busy f ≡ last_n 2 (history_of busy f)
    busy-last_n f = elim (Bool-cases (1 == f)) [
      | inl e ↦ rw (e, history_of) refl
      | inr e ↦ elim (Bool-cases (2 == f)) [
        | inl e' ↦ rw (e, e', history_of) refl
        | inr e' ↦ rw (e, e', history_of) refl
      ]
    ]
