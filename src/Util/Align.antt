-- ===== src/Util/Align.antt =====
-- The bit tricks of util.rs as arithmetic.
use Prim.Native.Nat.{◌∣◌}
use native.Mathlib.Nat.{
  mod-eq-zero_of_dvd, dvd_trans, dvd_of_mod-eq-zero, dvd-mul_left, div-add-mod', mod-lt, one-le-pow,
  pow-suc, pow-le-pow_right, div-eq_of_lt, div-eq_of_lt-le, mul-mod_left, mul-le-mul_right,
  lt_of_mul-lt-mul_right, le_of_suc-le-suc, add-mul, div-mul-le_self, mod-eq_of_lt,
}
use native.Mathlib.Decide.{dec_lt}
use secmem_alloc.Base.{
  ℕ, zero, suc, ◌+◌, ◌-◌, ◌*◌, ◌/◌, ◌%◌, ◌^◌, ◌≤◌, ◌<◌, ◌≡◌, ◌⊎◌, inl, inr, refl, sym, ap, arith,
  ◌==◌, done, bit_and, bit_and-high, usize_mod, wrapping_add, not_usize, IsPowerOfTwo,
  is_power_of_two-true, sub_usize-done, le→leb,
}
use secmem_alloc.Util.{align_up_usize, align_up_ptr_mut, is_aligned_ptr, large_offset_from}

-- `r` is the smallest multiple of `div` that is at least `x`.
pub record IsRoundUp (x div r : ℕ) : Type 0 where
  pub multiple : r % div ≡ 0
  pub above : x ≤ r
  pub least : (m : ℕ) → m % div ≡ 0 → x ≤ m → r ≤ m

abbrev pub round_up : ℕ → ℕ → ℕ
round_up x div = (x + (div - 1)) / div * div

pub round_up_bounds : (x div : ℕ) → 0 < div → (x ≤ round_up x div) × (round_up x div < x + div)
round_up_bounds x div h =
    omega (arith, div-add-mod' (x + (div - 1)) div, mod-lt (x + (div - 1)) {m = div} h)

-- A multiple of `div` that is at least `x` is at least `round_up x div`.
round_up-least : (x div m : ℕ) → 0 < div → m % div ≡ 0 → x ≤ m → round_up x div ≤ m
round_up-least x div m h e le = omega (arith, mul-le-mul_right div fewer, div-add-mod' m div)
  where
    fewer : (x + (div - 1)) / div ≤ m / div
    fewer = le_of_suc-le-suc (
        lt_of_mul-lt-mul_right div {n = suc (m / div)}
          (omega (arith, round_up_bounds x div h, div-add-mod' m div)))

pub round_up-IsRoundUp : (x div : ℕ) → 0 < div → IsRoundUp x div (round_up x div)
round_up-IsRoundUp x div h = record {
  multiple = mul-mod_left _ _;
  above = (round_up_bounds x div h).0;
  least = λ m e le. round_up-least x div m h e le;
}

-- The larger power of two is a multiple of the smaller.
pub pow-multiple : (k n : ℕ) → k ≤ n → (q : ℕ) × (2 ^ n ≡ q * 2 ^ k)
pow-multiple zero n h = (2 ^ n, omega arith)
pow-multiple (suc k) zero h = absurd (omega arith)
pow-multiple (suc k) (suc n) h =
    let (q, e) = pow-multiple k n (omega arith) in
    (q, omega (arith, pow-suc 2 n, e, ap (λ (t : ℕ). q * t) (pow-suc 2 k)))

pow-lt-pow_right : (k j : ℕ) → k < j → 2 ^ k < 2 ^ j
pow-lt-pow_right k j h = omega (
  arith,
  pow-suc 2 k,
  one-le-pow k 2 (omega arith),
  pow-le-pow_right {n = 2} (omega arith) {i = suc k} {j = j} h,
)

-- Of two powers of two the smaller divides what the larger divides.
pub mod-power : (a b x : ℕ) → IsPowerOfTwo a → IsPowerOfTwo b → a ≤ b → x % b ≡ 0 → x % a ≡ 0
mod-power a b x (j, hj, ej) (k, hk, ek) le e =
    mod-eq-zero_of_dvd a (dvd_trans a smaller (dvd_of_mod-eq-zero b e))
  where
    ordered : j ≤ k
    ordered = elim (dec_lt k j) [
      | yes lt ↦ absurd (omega (arith, pow-lt-pow_right k j lt))
      | no ge ↦ omega arith
    ]

    smaller : a ∣ b
    smaller = let (q, e') = pow-multiple j k ordered in rw (ej, ek, e') (dvd-mul_left (2 ^ j) q)

-- A multiple of `d` in the `d` numbers from `m` on is `m`, if `m` is a multiple of `d`.
round_up_wraps : (x d m q : ℕ) → 0 < d → m ≡ q * d → m ≤ x + (d - 1) → x < m → round_up x d ≡ m
round_up_wraps x d m q h e le lt =
    rw (div-eq_of_lt-le {k = q} d {m = x + (d - 1)} (omega arith) (omega (arith, add-mul q 1 d)), e)

not_usize-pred : (p : ℕ) → 1 ≤ p → p ≤ usize_mod → not_usize (p - 1) ≡ 2 ^ 64 - p
not_usize-pred p h k = omega arith

masked-eq :
    (k x : ℕ)
    → k < 64
    → x < usize_mod
    → bit_and (wrapping_add x (2 ^ k - 1)) (not_usize (2 ^ k - 1)) ≡ round_up x (2 ^ k) % usize_mod
masked-eq k x hk hx =
    rw
      (
        not_usize-pred p pos top,
        bit_and-high k 64 (wrapping_add x (p - 1)) (omega arith) (omega arith),
      )
      elim (dec_lt (x + (p - 1)) usize_mod) [
        | yes fits ↦
            rw (mod-eq_of_lt fits)
              (sym (mod-eq_of_lt (omega (arith, div-mul-le_self (x + (p - 1)) p))))
        | no wraps ↦
            rw
              (
                round_up_wraps x p usize_mod multiple.0 pos multiple.1 (omega arith) hx,
                div-eq_of_lt {n = wrapping_add x (p - 1)} {m = p} (omega arith),
              )
              (omega arith)
      ]
  where
    p : ℕ
    p = 2 ^ k

    multiple : (q : ℕ) × (usize_mod ≡ q * p)
    multiple = pow-multiple k 64 (omega arith)

    pos : 1 ≤ p
    pos = one-le-pow k 2 (omega arith)

    top : p ≤ usize_mod
    top = pow-le-pow_right {n = 2} (omega arith) {i = k} {j = 64} (omega arith)

pub align_up_usize-eq :
    {S : Type 0} (x div : ℕ) (s : S)
    → IsPowerOfTwo div
    → x < usize_mod
    → align_up_usize x div s ≡ done (round_up x div % usize_mod, s)
unfolding align_up_usize
align_up_usize-eq x div s (k, hk, e) hx = rw (
  is_power_of_two-true div (k, hk, e),
  sub_usize-done div 1 s (rw e (one-le-pow k 2 (omega arith))),
  e,
  masked-eq k x hk hx,
)

-- The result of `align_up_ptr_mut` is that of `align_up_usize`.
pub align_up_ptr_mut-eq :
    {S : Type 0} (ptr align : ℕ) (s : S)
    → IsPowerOfTwo align
    → ptr < usize_mod
    → align_up_ptr_mut ptr align s ≡ done (round_up ptr align % usize_mod, s)
unfolding align_up_ptr_mut
align_up_ptr_mut-eq ptr align s h hx =
    rw (is_power_of_two-true align h, align_up_usize-eq ptr align s h hx)

pub is_aligned_ptr-eq :
    {S : Type 0} (ptr align : ℕ) (s : S)
    → IsPowerOfTwo align
    → is_aligned_ptr ptr align s ≡ done ((ptr % align == 0), s)
unfolding is_aligned_ptr
is_aligned_ptr-eq ptr align s h = rw (is_power_of_two-true align h)

pub large_offset_from-eq :
    {S : Type 0} (ptr base : ℕ) (s : S)
    → base ≤ ptr
    → large_offset_from ptr base s ≡ done (ptr - base, s)
unfolding large_offset_from
large_offset_from-eq ptr base s h = rw (le→leb base ptr h, sub_usize-done ptr base s h)

-- The remainder that a wrapping computation leaves: nothing is lost, or all.
pub round_up-mod :
    (x div : ℕ)
    → IsPowerOfTwo div
    → x < usize_mod
    → ((round_up x div < usize_mod) × (round_up x div % usize_mod ≡ round_up x div))
      ⊎ ((usize_mod ≤ round_up x div) × (round_up x div % usize_mod ≡ 0))
round_up-mod x div (k, hk, e) hx = elim (dec_lt (round_up x div) usize_mod) [
  | yes fits ↦ inl (fits, mod-eq_of_lt fits)
  | no wraps ↦
      inr (omega arith, omega (arith, round_up-least x div usize_mod pos divides (omega arith)))
]
  where
    pos : 0 < div
    pos = rw e (one-le-pow k 2 (omega arith))

    multiple : (q : ℕ) × (usize_mod ≡ q * 2 ^ k)
    multiple = pow-multiple k 64 (omega arith)

    divides : usize_mod % div ≡ 0
    divides = rw (multiple.1, e) (mul-mod_left multiple.0 (2 ^ k))

pub pos_of_power : {d : ℕ} → IsPowerOfTwo d → 0 < d
pos_of_power (k, hk, e) = rw e (one-le-pow k 2 (omega arith))

-- For a power of two `div` and an `x` that fits a `usize`, `align_up_usize` does not panic; it
-- returns the smallest multiple of `div` that is at least `x`, and 0 if that multiple does not
-- fit a `usize`.
pub align_up_usize-IsRoundUp :
    {S : Type 0} (x div : ℕ) (s : S)
    → IsPowerOfTwo div
    → x < usize_mod
    → (r : ℕ) × IsRoundUp x div r
      × (((r < usize_mod) × (align_up_usize x div s ≡ done (r, s)))
          ⊎ ((usize_mod ≤ r) × (align_up_usize x div s ≡ done (0, s))))
align_up_usize-IsRoundUp x div s p hx = (
  round_up x div,
  round_up-IsRoundUp x div (pos_of_power p),
  elim (round_up-mod x div p hx) [
    | inl (fits, e) ↦ inl (fits, rw (align_up_usize-eq x div s p hx, e))
    | inr (wraps, e) ↦ inr (wraps, rw (align_up_usize-eq x div s p hx, e))
  ],
)

abbrev pub round8 : ℕ → ℕ
round8 x = (x + 7) / 8 * 8

pub eight-IsPowerOfTwo : IsPowerOfTwo 8
eight-IsPowerOfTwo = (3, omega arith, refl)

pub align_up_usize_eight :
    {S : Type 0} (x : ℕ) (s : S) → x + 7 < usize_mod → align_up_usize x 8 s ≡ done (round8 x, s)
align_up_usize_eight x s h =
    rw (align_up_usize-eq x 8 s eight-IsPowerOfTwo (omega arith))
      (ap (λ r. done (r, s)) (omega arith))

-- The same in `allocate_zeroed`, where it is written out.
pub round_bits : (x : ℕ) → x + 7 < usize_mod → bit_and (wrapping_add x 7) (not_usize 7) ≡ round8 x
round_bits x h = omega (arith, masked-eq 3 x (omega arith) (omega arith))
