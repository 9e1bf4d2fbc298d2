-- ===== src/Zeroize/Wipe.antt =====
-- What the zeroizers of src/zeroize/mod.rs do to the memory.
use secmem_alloc.Base.{
  ℕ, zero, suc, ◌+◌, ◌≤◌, ◌<◌, ◌≡◌, ◌⊎◌, inl, inr, refl, fun_ext, Bool-cases, true, some, arith,
  done, usize_mod,
}
use secmem_alloc.Memory.{Memory, World, is_mapped, all_mapped, fill, write_volatile, write_bytes}
use secmem_alloc.Memory.Ranges.{
  fill-inside, fill-outside, ptr_add-done, all_mapped-true, write_bytes-done,
}
use secmem_alloc.Zeroize.{
  Zeroizer, nightly, asm_barier, fallback, nightly_zeroize_mem, zeroize_mem, fallback_zeroize_mem,
  zeroize_with, IsMemoryRange,
}

all_mapped-fill :
    (m : Memory) (p v q len : ℕ) → p < q → all_mapped (fill m p v 1) q len ≡ all_mapped m q len
all_mapped-fill m p v q zero h = refl
all_mapped-fill m p v q (suc len) h =
    ground (arith, fill-outside m p v 1 q, all_mapped-fill m p v (q + 1) len)

fill-fill : (m : Memory) (p v len : ℕ) → fill (fill m p v 1) (p + 1) v len ≡ fill m p v (suc len)
unfolding fill
fill-fill m p v len = fun_ext λ a. ground arith

fill-zero : (m : Memory) (p v : ℕ) → fill m p v 0 ≡ m
unfolding fill
fill-zero m p v = fun_ext λ a. ground arith

module _ {A : Type 0} where
  -- The byte loop does what one `write_bytes` does, undefined behaviour included.
  fallback-write_bytes :
      (len ptr : ℕ) (w : World A)
      → ptr + len < usize_mod
      → fallback_zeroize_mem ptr len w ≡ write_bytes ptr 0 len w
  unfolding fallback_zeroize_mem write_volatile write_bytes
  fallback-write_bytes zero ptr w h = rw (fill-zero w.mem ptr 0)
  fallback-write_bytes (suc len) ptr w h = elim (Bool-cases (is_mapped (w.mem ptr))) [
    | inl e ↦ rw (
      e,
      ptr_add-done ptr 1 (record w { mem = fill w.mem ptr 0 1 }) (omega arith),
      fallback-write_bytes len (ptr + 1) (record w { mem = fill w.mem ptr 0 1 }) (omega arith),
      all_mapped-fill w.mem ptr 0 (ptr + 1) len (omega arith),
      fill-fill w.mem ptr 0 len,
    )
    | inr e ↦ rw e
  ]

  -- On a memory range that does not start at 0 or reach the end of the address space, whichever
  -- zeroizer is compiled in has the same outcome, the loop over single bytes too.
  pub zeroizers_agree :
      (z : Zeroizer) (ptr len : ℕ) (w : World A)
      → IsMemoryRange ptr len
      → zeroize_with z ptr len w ≡ zeroize_mem ptr len w
  unfolding zeroize_with nightly_zeroize_mem zeroize_mem
  zeroizers_agree nightly ptr len w h = refl
  zeroizers_agree asm_barier ptr len w h = refl
  zeroizers_agree fallback ptr len w h = fallback-write_bytes len ptr w h.1

  pub zeroize_mem-done :
      (ptr len : ℕ) (w : World A)
      → ((a : ℕ) → ptr ≤ a → a < ptr + len → is_mapped (w.mem a) ≡ true)
      → zeroize_mem ptr len w ≡ done (tt, record w { mem = fill w.mem ptr 0 len })
  unfolding zeroize_mem
  zeroize_mem-done ptr len w h = write_bytes-done ptr 0 len w (all_mapped-true w.mem ptr len h)

  -- On a mapped memory range that does not start at 0 or reach the end of the address space,
  -- every zeroizer returns; every byte of the range is 0 then, and no other byte and nothing of
  -- the allocator has changed.
  pub zeroize_with-wipes :
      (z : Zeroizer) (ptr len : ℕ) (w : World A)
      → IsMemoryRange ptr len
      → ((a : ℕ) → ptr ≤ a → a < ptr + len → is_mapped (w.mem a) ≡ true)
      → (m : Memory) × (zeroize_with z ptr len w ≡ done (tt, record w { mem = m }))
        × ((a : ℕ) → ptr ≤ a → a < ptr + len → m a ≡ some 0)
        × ((a : ℕ) → (a < ptr) ⊎ (ptr + len ≤ a) → m a ≡ w.mem a)
  zeroize_with-wipes z ptr len w range h = (
    fill w.mem ptr 0 len,
    rw (zeroizers_agree z ptr len w range) (zeroize_mem-done ptr len w h),
    fill-inside w.mem ptr 0 len,
    fill-outside w.mem ptr 0 len,
  )
