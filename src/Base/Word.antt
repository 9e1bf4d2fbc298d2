-- ===== src/Base/Word.antt =====
-- `usize` on a 64-bit target: checked arithmetic of a debug build, and the wrapping operations.
use Prim.Native.Nat.{ℕ, zero, suc, ◌+◌, ◌-◌, ◌%◌, ◌^◌, ◌≤◌, ◌<◌}
use mathlib.Core.Path.{◌≡◌, sym, ap}
use mathlib.Core.Logic.{inl, inr}
use mathlib.Core.Bool.{Bool, true, false, ◌||◌}
use native.Mathlib.Decide.{ℕ_discrete}
use native.Mathlib.Omega.{arith}
use secmem_alloc.Base.Tests.{ltb, leb, ◌==◌, if◌then◌else◌, Bool-cases, lt→ltb, le→leb, eq→==}
use secmem_alloc.Base.Command.{M, pure, throw, panic, done}

abbrev pub usize_mod : ℕ
usize_mod = 2 ^ 64

unfoldable pub add_usize : {S : Type 0} → ℕ → ℕ → M S ℕ
add_usize a b = if ltb (a + b) usize_mod then pure (a + b) else throw panic

unfoldable pub sub_usize : {S : Type 0} → ℕ → ℕ → M S ℕ
sub_usize a b = if leb b a then pure (a - b) else throw panic

abbrev pub wrapping_add : ℕ → ℕ → ℕ
wrapping_add a b = (a + b) % usize_mod

-- `!x`
abbrev pub not_usize : ℕ → ℕ
not_usize x = usize_mod - 1 - x

-- `x` is one of the first `n` powers of two.
abbrev pub is_power_below : ℕ → ℕ → Bool
is_power_below zero x = false
is_power_below (suc n) x = (2 ^ n == x) || is_power_below n x

-- `usize::is_power_of_two`
unfoldable pub is_power_of_two : ℕ → Bool
is_power_of_two = is_power_below 64

pow-is_power_below : (n k : ℕ) → k < n → is_power_below n (2 ^ k) ≡ true
pow-is_power_below zero k h = absurd (omega arith)
pow-is_power_below (suc n) k h = elim (ℕ_discrete k n) [
  | yes e ↦ rw (eq→== (2 ^ n) (2 ^ k) (ap (λ i. 2 ^ i) (sym e)))
  | no e ↦ elim (Bool-cases (2 ^ n == 2 ^ k)) [
    | inl same ↦ rw same
    | inr other ↦ rw other (pow-is_power_below n k (omega arith))
  ]
]

abbrev pub IsPowerOfTwo : ℕ → Type 0
IsPowerOfTwo x = (k : ℕ) × (k < 64) × (x ≡ 2 ^ k)

pub is_power_of_two-true : (x : ℕ) → IsPowerOfTwo x → is_power_of_two x ≡ true
unfolding is_power_of_two
is_power_of_two-true x (k, h, e) = rw e (pow-is_power_below 64 k h)

-- A checked operation in range returns its value.
pub add_usize-done :
    {S : Type 0} (a b : ℕ) (s : S) → a + b < usize_mod → add_usize a b s ≡ done (a + b, s)
unfolding add_usize
add_usize-done a b s h = rw (lt→ltb (a + b) usize_mod h)

pub sub_usize-done : {S : Type 0} (a b : ℕ) (s : S) → b ≤ a → sub_usize a b s ≡ done (a - b, s)
unfolding sub_usize
sub_usize-done a b s h = rw (le→leb b a h)
