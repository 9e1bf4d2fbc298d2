-- ===== src/SecAlloc.antt =====
-- src/sec_alloc.rs: the allocator over a single page. The model is that of a debug build: a failed
-- assertion or precondition and an overflow are a panic.
pub mod Resize
pub mod Blocks
pub mod Invariant
pub mod Allocate
pub mod Deallocate
pub mod Fresh
pub mod Resized
pub mod Shrink
pub mod Move
pub mod Grow
pub mod Contract
pub mod Exact
pub mod Empty
pub mod Dropped
pub mod New
pub mod Client
pub mod Reuse
pub mod Lifetime
pub mod Discreet
pub mod Misuse
pub mod Members
pub mod Refine
pub mod Checked
use secmem_alloc.Base.{
  ℕ, ◌+◌, ◌%◌, Bool, ◌||◌, not, ltb, leb, ◌==◌, if◌then◌else◌, M, ◌>>=◌, ◌>>◌, pure, throw, gets,
  modify, debug_assert, abort, panic, Result, ok, err, bit_and, wrapping_add, not_usize, add_usize,
  sub_usize, is_power_of_two, zero, suc,
}
use secmem_alloc.Memory.{World, ptr_add, new_unchecked, read}
use secmem_alloc.Util.{
  Slice, unlikely, align_up_usize, align_up_ptr_mut, is_aligned_ptr, large_offset_from,
}
use secmem_alloc.Zeroize.{zeroize_mem}
use secmem_alloc.Page.{Page, page_size, as_ptr, as_ptr_mut}
use secmem_alloc.Layout.{Layout, AllocError, alloc_error}

pub record SecStackSinglePageAlloc : Type 0 where
  pub bytes : ℕ
  pub page : Page
  pub stack_offset : ℕ

abbrev pub Sec : Type 0
Sec = World SecStackSinglePageAlloc

abbrev pub SliceResult : Type 0
SliceResult = Result Slice AllocError

-- The `Cell`s: `get` and `set`.
abbrev pub get_bytes : M Sec ℕ
get_bytes = gets (λ w. w.alloc.bytes)

abbrev pub get_stack_offset : M Sec ℕ
get_stack_offset = gets (λ w. w.alloc.stack_offset)

abbrev pub get_page : M Sec Page
get_page = gets (λ w. w.alloc.page)

abbrev pub set_bytes : ℕ → M Sec (Unit {0})
set_bytes n = modify (λ w. record w { alloc = record w.alloc { bytes = n } })

abbrev pub set_stack_offset : ℕ → M Sec (Unit {0})
set_stack_offset n = modify (λ w. record w { alloc = record w.alloc { stack_offset = n } })

unfoldable pub consistency_check : M Sec (Unit {0})
unfolding is_aligned_ptr is_power_of_two page_size as_ptr
consistency_check = do
  bytes ← get_bytes
  stack_offset ← get_stack_offset
  page ← get_page
  debug_assert (stack_offset % 8 == 0)
  debug_assert (leb stack_offset (page_size page))
  aligned ← is_aligned_ptr (as_ptr page) 8
  debug_assert aligned
  debug_assert (leb bytes stack_offset)
  debug_assert (bytes % 8 == 0)

-- The loop of `drop` over the page, from `offset` on, with `left` offsets to go. A byte that is
-- not 0 ends it with `fault`.
unfoldable pub check_zero_from : M Sec (Unit {0}) → ℕ → ℕ → M Sec (Unit {0})
check_zero_from fault zero offset = pure tt
check_zero_from fault (suc left) offset = do
  page ← get_page
  byte ← read (wrapping_add (as_ptr page) offset)
  if not (byte == 0) then fault else check_zero_from fault left (offset + 1)

-- `drop` with the feature `std`
unfoldable pub drop : M Sec (Unit {0})
drop = do
  bytes ← get_bytes
  page ← get_page
  if not (bytes == 0) then throw abort else check_zero_from (throw abort) (page_size page) 0

-- `drop` without it
unfoldable pub drop_no_std : M Sec (Unit {0})
drop_no_std = do
  bytes ← get_bytes
  debug_assert (bytes == 0)
  page ← get_page
  check_zero_from (throw panic) (page_size page) 0

unfoldable pub ptr_is_last_allocation : ℕ → ℕ → M Sec Bool
ptr_is_last_allocation ptr rounded_size = do
  page ← get_page
  alloc_start_offset ← large_offset_from ptr (as_ptr page)
  alloc_end_offset ← add_usize alloc_start_offset rounded_size
  stack_offset ← get_stack_offset
  pure (alloc_end_offset == stack_offset)

unfoldable pub allocate_zerosized : ℕ → M Sec Slice
allocate_zerosized align = do
  debug_assert (is_power_of_two align)
  dangling ← new_unchecked align
  pure (record { addr = dangling; len = 0 })

-- The last steps of both branches of `allocate_zeroed`: the block at `start`, whose first byte is
-- at `offset` in the page.
unfoldable pub claim : ℕ → ℕ → ℕ → M Sec SliceResult
claim start offset rounded_req_size = do
  addr ← new_unchecked start
  top ← add_usize offset rounded_req_size
  set_stack_offset top
  bytes ← get_bytes
  more ← add_usize bytes rounded_req_size
  set_bytes more
  pure (ok (record { addr = addr; len = rounded_req_size }))

-- The branch `layout.align() <= 8` of `allocate_zeroed`.
unfoldable pub allocate_low_align : ℕ → Layout → ℕ → M Sec SliceResult
allocate_low_align stack_ptr layout rounded_req_size = do
  debug_assert (layout.align == 1 || layout.align == 2 || layout.align == 4 || layout.align == 8)
  stack_offset ← get_stack_offset
  claim stack_ptr stack_offset rounded_req_size

-- The other branch.
unfoldable pub allocate_high_align : ℕ → Layout → ℕ → M Sec SliceResult
allocate_high_align stack_ptr layout rounded_req_size = do
  page ← get_page
  next_aligned_ptr ← align_up_ptr_mut stack_ptr layout.align
  if unlikely (next_aligned_ptr == 0) then pure (err alloc_error) else do
    next_align_pageoffset ← large_offset_from next_aligned_ptr (as_ptr page)
    if leb (page_size page) next_align_pageoffset then pure (err alloc_error) else do
      room ← sub_usize (page_size page) next_align_pageoffset
      if ltb room rounded_req_size
          then pure (err alloc_error)
          else do claim next_aligned_ptr next_align_pageoffset rounded_req_size

unfoldable pub allocate_zeroed : Layout → M Sec SliceResult
allocate_zeroed layout = do
  debug_assert (is_power_of_two layout.align)
  if layout.size == 0 then (do slice ← allocate_zerosized layout.align; pure (ok slice)) else do
    let rounded_req_size = bit_and (wrapping_add layout.size 7) (not_usize 7)
    if unlikely (rounded_req_size == 0) then pure (err alloc_error) else do
      page ← get_page
      stack_offset ← get_stack_offset
      room ← sub_usize (page_size page) stack_offset
      if ltb room rounded_req_size then pure (err alloc_error) else do
        stack_ptr ← ptr_add (as_ptr_mut page) stack_offset
        if leb layout.align 8
            then allocate_low_align stack_ptr layout rounded_req_size
            else allocate_high_align stack_ptr layout rounded_req_size

unfoldable pub allocate : Layout → M Sec SliceResult
allocate layout = allocate_zeroed layout
