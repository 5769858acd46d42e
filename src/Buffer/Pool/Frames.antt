-- ===== src/Buffer/Pool/Frames.antt =====
-- The frames of src/buffer/bpm.rs: lists that are read and written at an index, and the guards held.
use oxtub.Base.{
  ℕ, zero, suc, ◌+◌, ◌≤◌, ◌<◌, ◌≡◌, refl, ap, sym, ◌∙◌, some, List, [], ◌∷◌, ◌==◌, if◌then◌else◌,
  get_elem?, length, arith, All, inl, inr, Bool-cases, eq_of_==,
}
use oxtub.Buffer.Pool.Defs.{repeat, range}

pub get_elem?_same :
    {A : Type 0} (f g : ℕ) (v : A) (xs : List A)
    → get_elem? xs f ≡ some v
    → get_elem? xs g ≡ (if f == g then some v else get_elem? xs g)
get_elem?_same f g v xs e = elim (Bool-cases (f == g)) [
  | inl same ↦ ap (get_elem? xs) (sym (eq_of_== f g same)) ∙ e ∙ rw same refl
  | inr differ ↦ rw differ refl
]

pub get_elem?-repeat : {A : Type 0} (n i : ℕ) (a v : A) → get_elem? (repeat n a) i ≡ some v → v ≡ a
get_elem?-repeat zero i a v h = cc
get_elem?-repeat (suc n) zero a v h = ground arith
get_elem?-repeat (suc n) (suc i) a v h = get_elem?-repeat n i a v h

pub length-repeat : {A : Type 0} (n : ℕ) (a : A) → length (repeat n a) ≡ n
length-repeat zero a = refl
length-repeat (suc n) a = omega (arith, length-repeat n a)

pub range-All : (start n : ℕ) → All (λ f. (start ≤ f) × (f < start + n)) (range start n)
range-All start zero = tt
range-All start (suc n) =
    ((omega arith, omega arith), wider start n (range (suc start) n) (range-All (suc start) n))
  where
    wider :
        (start n : ℕ) (fs : List ℕ)
        → All (λ f. (suc start ≤ f) × (f < suc start + n)) fs
        → All (λ f. (start ≤ f) × (f < start + suc n)) fs
    wider start n [] a = tt
    wider start n (f ∷ fs) a = ((omega (arith, a.0.0), omega (arith, a.0.1)), wider start n fs a.1)

-- How many guards hold a frame.
abbrev pub held : ℕ → List ℕ → ℕ
held f [] = 0
held f (g ∷ gs) = (if f == g then 1 else 0) + held f gs

-- One guard of the frame is dropped.
abbrev pub release : ℕ → List ℕ → List ℕ
release f [] = []
release f (g ∷ gs) = if f == g then gs else g ∷ release f gs

pub held-release :
    (f j : ℕ) (gs : List ℕ)
    → 0 < held f gs
    → held j gs ≡ held j (release f gs) + (if f == j then 1 else 0)
held-release f j [] h = absurd (omega arith)
held-release f j (g ∷ gs) h = ground (arith, held-release f j gs)

pub held-le : (f : ℕ) (gs : List ℕ) → held f gs ≤ length gs
held-le f [] = omega arith
held-le f (g ∷ gs) = ground (arith, held-le f gs)
