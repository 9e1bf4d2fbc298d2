-- ===== src/CrateTests/Zeroizers.antt =====
-- The unit tests of src/zeroize/tests.rs, with the array of a test at any address.
use secmem_alloc.Base.{
  ℕ, ◌+◌, ◌*◌, ◌≤◌, ◌<◌, ◌≡◌, ◌⊎◌, refl, ◌∙◌, true, some, arith, M, ◌>>=◌, ◌>>◌, done, usize_mod,
}
use secmem_alloc.Memory.{Memory, World, is_mapped, fill, ptr_add, read, write_bytes}
use secmem_alloc.Memory.Ranges.{
  all_mapped-true, write_bytes-done, fill-inside, fill-outside, ptr_add-done, read-done,
}
use secmem_alloc.Zeroize.{Zeroizer, zeroize_with}
use secmem_alloc.Zeroize.Wipe.{zeroize_with-wipes}
use secmem_alloc.CrateTests.{assert_eq, assert_zeros}
use secmem_alloc.CrateTests.Zeroed.{assert_zeros-done}

module _ {A : Type 0} (z : Zeroizer) (array : ℕ) where
  -- An array of 127 bytes.
  unfoldable pub test_b127_zeroizer : M (World A) (Unit {0})
  test_b127_zeroizer = do
    write_bytes array 0xAF 127
    zeroize_with z array 127
    assert_zeros array 127 0

  -- An array of 30 words of 8 bytes, all of which but the first byte are wiped.
  unfoldable pub test_b239_lowalign_zeroizer : M (World A) (Unit {0})
  test_b239_lowalign_zeroizer = do
    write_bytes array 0xAF (30 * 8)
    ptr ← ptr_add array 1
    zeroize_with z ptr 239
    first ← read array
    assert_eq first 0xAF
    assert_zeros array 239 1

module _ {A : Type 0} (z : Zeroizer) (array : ℕ) (w : World A) where
  -- The test returns, and has written to its array only.
  abbrev pub Passes : M (World A) (Unit {0}) → ℕ → Type 0
  Passes test len =
      (m : Memory) × (test w ≡ done (tt, record w { mem = m }))
      × ((a : ℕ) → (a < array) ⊎ (array + len ≤ a) → m a ≡ w.mem a)

  module _ (pos : 0 < array) (small : array + 240 < usize_mod)
      (mapped : (a : ℕ) → array ≤ a → a < array + 240 → is_mapped (w.mem a) ≡ true) where
    -- The array is filled.
    filled :
        (len : ℕ)
        → len ≤ 240
        → write_bytes array 0xAF len w ≡ done (tt, record w { mem = fill w.mem array 0xAF len })
    filled len le =
        write_bytes-done array 0xAF len w
          (all_mapped-true w.mem array len (λ a h k. mapped a h (omega arith)))

    b127-Passes : Passes (test_b127_zeroizer z array) 127
    unfolding test_b127_zeroizer
    b127-Passes =
        let before : Memory = fill w.mem array 0xAF 127 in
        let (m, wiped, zeros, others) =
          zeroize_with-wipes z array 127 (record w { mem = before }) (pos, omega arith)
            (λ a h k. rw (fill-inside w.mem array 0xAF 127 a h k) refl) in
        (
          m,
          rw (filled 127 (omega arith), wiped)
              (assert_zeros-done array 127 0 (record w { mem = m }) (omega arith)
                (λ a h k. zeros a (omega arith) (omega arith))),
          λ a o. others a o ∙ fill-outside w.mem array 0xAF 127 a o,
        )

    b239-Passes : Passes (test_b239_lowalign_zeroizer z array) 240
    unfolding test_b239_lowalign_zeroizer
    b239-Passes =
        let before : Memory = fill w.mem array 0xAF 240 in
        let (m, wiped, zeros, others) =
          zeroize_with-wipes z (array + 1) 239 (record w { mem = before })
            (omega arith, omega arith)
            (λ a h k. rw (fill-inside w.mem array 0xAF 240 a (omega arith) (omega arith)) refl) in
        let first : m array ≡ some 0xAF =
          others array (omega arith)
          ∙ fill-inside w.mem array 0xAF 240 array (omega arith) (omega arith) in
        (
          m,
          rw
              (
                filled 240 (omega arith),
                ptr_add-done array 1 (record w { mem = before }) (omega arith),
                wiped,
                read-done array 0xAF (record w { mem = m }) first,
              )
              (assert_zeros-done array 239 1 (record w { mem = m }) (omega arith)
                (λ a h k. zeros a (omega arith) (omega arith))),
          λ a o. others a (omega arith) ∙ fill-outside w.mem array 0xAF 240 a o,
        )

    -- With each of the three zeroizers, and for an array at any mapped place of 240 bytes that
    -- does not start at 0 or reach the end of the address space, both unit tests of the
    -- zeroizers pass, the one on an unaligned range too: they return, and no byte outside of the
    -- array has changed.
    pub zeroizer_tests_pass :
        Passes (test_b127_zeroizer z array) 127 × Passes (test_b239_lowalign_zeroizer z array) 240
    zeroizer_tests_pass = (b127-Passes, b239-Passes)
