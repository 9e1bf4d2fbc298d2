-- ===== src/Base/Bits.antt =====
-- `bit_and` with a mask of high ones, as arithmetic, at every width.
use Prim.Native.Nat.{
  ℕ, zero, suc, ◌+◌, ◌-◌, ◌*◌, ◌/◌, ◌%◌, ◌^◌, ◌≤◌, ◌<◌, min, digits, bit_and, bit_and-bitwise,
}
use mathlib.Core.Path.{◌≡◌, refl, ap}
use native.Mathlib.Nat.{pow-suc, one-le-pow, div-div-eq-div-mul, pow-le-pow_right}
use native.Mathlib.Omega.{arith}

-- The recursion on binary digits that `bit_and` stands for.
abbrev and_upto : ℕ → ℕ → ℕ → ℕ
and_upto fuel a b = digits (λ _. zero) min fuel a b

-- Any fuel that is at least the first number gives the same digits.
and_upto-irrelevant : (f g a b : ℕ) → a ≤ f → a ≤ g → and_upto f a b ≡ and_upto g a b
and_upto-irrelevant zero zero a b p q = refl
and_upto-irrelevant zero (suc g) zero b p q = refl
and_upto-irrelevant zero (suc g) (suc a) b p q = absurd (omega arith)
and_upto-irrelevant (suc f) zero zero b p q = refl
and_upto-irrelevant (suc f) zero (suc a) b p q = absurd (omega arith)
and_upto-irrelevant (suc f) (suc g) zero b p q = refl
and_upto-irrelevant (suc f) (suc g) (suc a) b p q =
    omega (arith, and_upto-irrelevant f g (suc a / 2) (b / 2) (omega arith) (omega arith))

-- The lowest digit of a conjunction, and the others.
pub bit_and-digit : (a b : ℕ) → bit_and a b ≡ bit_and (a / 2) (b / 2) * 2 + min (a % 2) (b % 2)
bit_and-digit zero b = omega (arith, bit_and-bitwise 0 b, bit_and-bitwise 0 (b / 2))
bit_and-digit (suc a) b = omega (
  arith,
  bit_and-bitwise (suc a) b,
  bit_and-bitwise (suc a / 2) (b / 2),
  and_upto-irrelevant a (suc a / 2) (suc a / 2) (b / 2) (omega arith) (omega arith),
)

-- All ones: a number that fits the width is left as it is.
bit_and-ones : (n a : ℕ) → a < 2 ^ n → bit_and a (2 ^ n - 1) ≡ a
bit_and-ones zero a h = ground (arith, bit_and-bitwise 0 0)
bit_and-ones (suc n) a h = ground (
  arith,
  bit_and-digit a (2 ^ suc n - 1),
  pow-suc 2 n,
  one-le-pow n 2,
  bit_and-ones n (a / 2) (omega (arith, pow-suc 2 n)),
)

-- `a / 2 ^ (k + 1)`, one digit at a time.
div-pow-suc : (k a : ℕ) → a / 2 ^ suc k ≡ a / 2 / 2 ^ k
div-pow-suc k a = rw (pow-suc 2 k, div-div-eq-div-mul a 2 (2 ^ k)) (ap (λ t. a / t) (omega arith))

-- A mask that clears the `k` low bits rounds down to a multiple of `2 ^ k`.
pub bit_and-high : (k n a : ℕ) → k ≤ n → a < 2 ^ n → bit_and a (2 ^ n - 2 ^ k) ≡ a / 2 ^ k * 2 ^ k
bit_and-high zero n a h fits = ground (arith, bit_and-ones n a fits)
bit_and-high (suc k) zero a h fits = absurd (omega arith)
bit_and-high (suc k) (suc n) a h fits = ground (
  arith,
  bit_and-digit a (2 ^ suc n - 2 ^ suc k),
  pow-suc 2 n,
  pow-suc 2 k,
  pow-le-pow_right {n = 2} (omega arith) {i = k} {j = n} (omega arith),
  div-pow-suc k a,
  bit_and-high k n (a / 2) (omega arith) (omega (arith, pow-suc 2 n)),
  ap (λ (t : ℕ). a / 2 / 2 ^ k * t) (pow-suc 2 k),
)
