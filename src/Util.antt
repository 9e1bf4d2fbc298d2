-- ===== src/Util.antt =====
-- src/util.rs: rounding, alignment and offsets of addresses.
pub mod Align
use secmem_alloc.Base.{
  ℕ, ◌+◌, ◌%◌, Bool, ◌==◌, leb, M, ◌>>=◌, ◌>>◌, pure, debug_assert, bit_and, wrapping_add,
  not_usize, add_usize, sub_usize, is_power_of_two,
}

-- A slice pointer `*mut [u8]`: the address of its first byte, and its length.
pub record Slice : Type 0 where
  pub addr : ℕ
  pub len : ℕ

unfoldable pub unlikely : Bool → Bool
unlikely b = b

unfoldable pub nonnull_as_mut_ptr : Slice → ℕ
nonnull_as_mut_ptr ptr = ptr.addr

module _ {S : Type 0} where
  unfoldable pub align_up_usize : ℕ → ℕ → M S ℕ
  align_up_usize x div = do
    debug_assert (is_power_of_two div)
    low ← sub_usize div 1
    pure (bit_and (wrapping_add x low) (not_usize low))

  unfoldable pub align_up_ptr_mut : ℕ → ℕ → M S ℕ
  align_up_ptr_mut ptr align = do debug_assert (is_power_of_two align); align_up_usize ptr align

  unfoldable pub is_aligned_ptr : ℕ → ℕ → M S Bool
  is_aligned_ptr ptr align = do debug_assert (is_power_of_two align); pure (ptr % align == 0)

  unfoldable pub large_offset_from : ℕ → ℕ → M S ℕ
  large_offset_from ptr base = do debug_assert (leb base ptr); sub_usize ptr base
