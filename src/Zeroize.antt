-- ===== src/Zeroize.antt =====
-- src/zeroize/mod.rs: the three zeroizers, of which `cfg` selects one. `precondition!` of
-- `mirai_annotations` is no code outside of MIRAI, and the `asm!` barrier moves no data.
pub mod Wipe
use secmem_alloc.Base.{ℕ, zero, suc, ◌+◌, ◌<◌, M, ◌>>=◌, ◌>>◌, pure, usize_mod}
use secmem_alloc.Memory.{World, ptr_add, write_volatile, write_bytes}

-- `precondition_memory_range!`, a condition on the caller
abbrev pub IsMemoryRange : ℕ → ℕ → Type 0
IsMemoryRange ptr len = (0 < ptr) × (ptr + len < usize_mod)

-- `volatile_set_memory`, an intrinsic that writes as `write_bytes` does
unfoldable pub nightly_zeroize_mem : {A : Type 0} → ℕ → ℕ → M (World A) (Unit {0})
nightly_zeroize_mem ptr len = write_bytes ptr 0 len

unfoldable pub zeroize_mem : {A : Type 0} → ℕ → ℕ → M (World A) (Unit {0})
zeroize_mem ptr len = write_bytes ptr 0 len

unfoldable pub fallback_zeroize_mem : {A : Type 0} → ℕ → ℕ → M (World A) (Unit {0})
fallback_zeroize_mem ptr zero = pure tt
fallback_zeroize_mem ptr (suc len) = do
  write_volatile ptr 0
  ptr' ← ptr_add ptr 1
  fallback_zeroize_mem ptr' len

-- The choice that `cfg_if!` makes when the crate is built.
pub data Zeroizer : Type 0 where
  nightly asm_barier fallback : Zeroizer

unfoldable pub zeroize_with : {A : Type 0} → Zeroizer → ℕ → ℕ → M (World A) (Unit {0})
zeroize_with nightly = nightly_zeroize_mem
zeroize_with asm_barier = zeroize_mem
zeroize_with fallback = fallback_zeroize_mem
