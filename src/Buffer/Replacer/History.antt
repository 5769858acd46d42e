-- ===== src/Buffer/Replacer/History.antt =====
-- A node's history against the log of all accesses: the last `k` of them.
use oxtub.Base.{
  ℕ, zero, suc, ◌+◌, ◌-◌, ◌≤◌, ◌<◌, ◌≡◌, refl, ap, sym, some, List, [], ◌∷◌, ◌++◌, ltb, length,
  drop, arith, length-append, inl, inr, Bool-cases,
}
use oxtub.Buffer.Replacer.Defs.{push_access, remove_first}

-- The last `k` items.
abbrev pub last_n : ℕ → List ℕ → List ℕ
last_n k xs = drop (length xs - k) xs

length-drop : (n : ℕ) (xs : List ℕ) → length (drop n xs) ≡ length xs - n
length-drop zero xs = omega arith
length-drop (suc n) [] = omega arith
length-drop (suc n) (x ∷ xs) = omega (arith, length-drop n xs)

drop-append :
    (n : ℕ) (xs : List ℕ) (t : ℕ) → n ≤ length xs → drop n (xs ++ t ∷ []) ≡ drop n xs ++ t ∷ []
drop-append zero xs t h = refl
drop-append (suc n) [] t h = absurd (omega arith)
drop-append (suc n) (x ∷ xs) t h = drop-append n xs t (omega arith)

remove_first-drop :
    (n : ℕ) (xs : List ℕ) → n < length xs → remove_first (drop n xs) ≡ some (drop (suc n) xs)
remove_first-drop n [] h = absurd (omega arith)
remove_first-drop zero (x ∷ xs) h = refl
remove_first-drop (suc n) (x ∷ xs) h = remove_first-drop n xs (omega arith)

-- One more access turns the last `k` entries of a log into the last `k` of the longer log.
pub push_access-last_n :
    (k : ℕ) (log : List ℕ) (now : ℕ)
    → 1 ≤ k
    → push_access k (last_n k log) now ≡ some (last_n k (log ++ now ∷ []))
unfolding push_access
push_access-last_n k log now h =
    let size = length-drop (length log - k) log in
    let longer = length-append log (now ∷ []) in
    elim (Bool-cases (ltb k (length (last_n k log) + 1))) [
      | inl full ↦
          let e : length (log ++ now ∷ []) - k ≡ suc (length log - k) = ground arith in
          rw (full, remove_first-drop (length log - k) log (ground arith), e)
            (ap some (sym (drop-append (suc (length log - k)) log now (ground arith))))
      | inr room ↦
          let e : length (log ++ now ∷ []) - k ≡ length log - k = ground arith in
          rw (room, e) (ap some (sym (drop-append (length log - k) log now (ground arith))))
    ]
