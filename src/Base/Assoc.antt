-- ===== src/Base/Assoc.antt =====
-- `HashMap<usize, V>` as an association list. A map's iteration order is the order of the list,
-- which is any order.
use Prim.Native.Nat.{ℕ}
use mathlib.Core.Path.{◌≡◌, refl, sym, ◌∙◌}
use mathlib.Core.Logic.{◌≢◌, ◌⊎◌, inl, inr}
use mathlib.Core.Option.{Option, none, some}
use mathlib.Core.List.{List, [], ◌∷◌}
use native.Mathlib.Omega.{arith}
use oxtub.Base.Tests.{◌==◌, if◌then◌else◌, Bool-cases, eq_of_==, ne_of_==}

module _ {ℓ} {V : Type ℓ} where
  abbrev pub get : ℕ → List (ℕ × V) → Option V
  get k [] = none
  get k ((j, v) ∷ m) = if j == k then some v else get k m

  abbrev pub insert : ℕ → V → List (ℕ × V) → List (ℕ × V)
  insert k v [] = (k, v) ∷ []
  insert k v ((j, w) ∷ m) = if j == k then (k, v) ∷ m else (j, w) ∷ insert k v m

  abbrev pub remove : ℕ → List (ℕ × V) → List (ℕ × V)
  remove k [] = []
  remove k ((j, w) ∷ m) = if j == k then m else (j, w) ∷ remove k m

  -- No key occurs twice.
  abbrev pub Distinct : List (ℕ × V) → Type ℓ
  Distinct [] = Unit
  Distinct ((j, w) ∷ m) = (get j m ≡ none) × Distinct m

  pub get-insert :
      (k j : ℕ) (v : V) (m : List (ℕ × V))
      → get j (insert k v m) ≡ (if k == j then some v else get j m)
  get-insert k j v [] = refl
  get-insert k j v ((i, w) ∷ m) = ground (arith, get-insert k j v m)

  pub get-remove :
      (k j : ℕ) (m : List (ℕ × V))
      → Distinct m
      → get j (remove k m) ≡ (if k == j then none else get j m)
  get-remove k j [] d = ground arith
  get-remove k j ((i, w) ∷ m) d = ground (arith, get-remove k j m d.1)

  pub insert-Distinct : (k : ℕ) (v : V) (m : List (ℕ × V)) → Distinct m → Distinct (insert k v m)
  insert-Distinct k v [] d = (refl, tt)
  insert-Distinct k v ((i, w) ∷ m) d = ground (arith, insert-Distinct k v m d.1, get-insert k i v m)

  pub remove-Distinct : (k : ℕ) (m : List (ℕ × V)) → Distinct m → Distinct (remove k m)
  remove-Distinct k [] d = tt
  remove-Distinct k ((i, w) ∷ m) d = ground (arith, remove-Distinct k m d.1, get-remove k i m d.1)

  pub get-insert_cases :
      (k j : ℕ) (v w : V) (m : List (ℕ × V))
      → get j (insert k v m) ≡ some w
      → ((k ≡ j) × (v ≡ w)) ⊎ ((k ≢ j) × (get j m ≡ some w))
  get-insert_cases k j v w m h =
      let split = sym (get-insert k j v m) ∙ h in
      elim (Bool-cases (k == j)) [
        | inl e ↦ inl (eq_of_== k j e, let same : some v ≡ some w = rw e at split in cc)
        | inr e ↦ inr (ne_of_== k j e, rw e at split)
      ]

  pub get-remove_cases :
      (k j : ℕ) (w : V) (m : List (ℕ × V))
      → Distinct m
      → get j (remove k m) ≡ some w
      → (k ≢ j) × (get j m ≡ some w)
  get-remove_cases k j w m d h =
      let split = sym (get-remove k j m d) ∙ h in
      elim (Bool-cases (k == j)) [
        | inl e ↦ absurd (cc (rw e at split))
        | inr e ↦ (ne_of_== k j e, rw e at split)
      ]

  pub get-insert_self : (k : ℕ) (v : V) (m : List (ℕ × V)) → get k (insert k v m) ≡ some v
  get-insert_self k v m = ground (arith, get-insert k k v m)

  pub get-insert_ne : (k j : ℕ) (v : V) (m : List (ℕ × V)) → k ≢ j → get j (insert k v m) ≡ get j m
  get-insert_ne k j v m h = ground (arith, get-insert k j v m)

  pub get-remove_self : (k : ℕ) (m : List (ℕ × V)) → Distinct m → get k (remove k m) ≡ none
  get-remove_self k m d = ground (arith, get-remove k k m d)

  pub get-remove_ne :
      (k j : ℕ) (m : List (ℕ × V)) → Distinct m → k ≢ j → get j (remove k m) ≡ get j m
  get-remove_ne k j m d h = ground (arith, get-remove k j m d)
