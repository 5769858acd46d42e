-- ===== src/Base/Outcome.antt =====
-- The ways a Rust call ends: a value, an error that the caller sees, or a panic.
use Prim.Native.Nat.{ℕ, ◌+◌, ◌-◌, ◌^◌, ◌≤◌, ◌<◌}
use mathlib.Core.Path.{◌≡◌, refl}
use native.Mathlib.Omega.{arith}
use mathlib.Core.Bool.{Bool, true, false}
use mathlib.Core.Option.{Option, none, some}
use oxtub.Base.Tests.{if◌then◌else◌, ltb, leb}

pub data Exec {ℓ} (E : Type 0) (A : Type ℓ) : Type ℓ where
  ok : A → Exec E A
  err : E → Exec E A
  panic : Exec E A

-- The `?` operator.
infixl 5 ◌>>=◌ ◌>>◌
abbrev pub ◌>>=◌ {ℓ κ} :
    {E : Type 0} {A : Type ℓ} {B : Type κ} → Exec E A → (A → Exec E B) → Exec E B
panic >>= next = panic
err e >>= next = err e
ok a >>= next = next a

abbrev pub ◌>>◌ {ℓ} : {E : Type 0} {B : Type ℓ} → Exec E (Unit {0}) → Exec E B → Exec E B
m >> k = m >>= λ _. k

-- `unwrap`, `expect` and indexing: nothing there is a panic.
abbrev pub or_panic {ℓ} : {E : Type 0} {A : Type ℓ} → Option A → Exec E A
or_panic none = panic
or_panic (some a) = ok a

-- `ok_or`.
abbrev pub ok_or {ℓ} : {E : Type 0} {A : Type ℓ} → Option A → E → Exec E A
ok_or none e = err e
ok_or (some a) e = ok a

abbrev pub assert : {E : Type 0} → Bool → Exec E (Unit {0})
assert true = ok tt
assert false = panic

-- The chains of operations that can only panic.
abbrev pub and_then {ℓ κ} : {A : Type ℓ} {B : Type κ} → Option A → (A → Option B) → Option B
and_then none f = none
and_then (some a) f = f a

-- `usize` arithmetic with the overflow checks of a debug build: `none` is the panic.
unfoldable pub usize_mod : ℕ
usize_mod = 2 ^ 64

unfoldable pub add_usize : ℕ → ℕ → Option ℕ
unfolding usize_mod
add_usize a b = if ltb (a + b) usize_mod then some (a + b) else none

unfoldable pub sub_usize : ℕ → ℕ → Option ℕ
sub_usize a b = if leb b a then some (a - b) else none

-- Inversions of a chain that succeeds.
pub and_then-eq-some {ℓ κ} :
    {A : Type ℓ} {B : Type κ} (m : Option A) (f : A → Option B) {b : B}
    → and_then m f ≡ some b
    → (a : A) × (m ≡ some a) × (f a ≡ some b)
and_then-eq-some none f h = cc
and_then-eq-some (some a) f h = (a, refl, h)

pub add_usize-eq-some : (a b c : ℕ) → add_usize a b ≡ some c → c ≡ a + b
unfolding add_usize
add_usize-eq-some a b c h = ground arith

pub sub_usize-eq-some : (a b c : ℕ) → sub_usize a b ≡ some c → c + b ≡ a
unfolding sub_usize
sub_usize-eq-some a b c h = ground arith

pub sub_usize-some : (a b : ℕ) → b ≤ a → sub_usize a b ≡ some (a - b)
unfolding sub_usize
sub_usize-some a b h = ground arith

pub add_usize-some : (a b : ℕ) → a + b < usize_mod → add_usize a b ≡ some (a + b)
unfolding add_usize
add_usize-some a b h = ground arith
