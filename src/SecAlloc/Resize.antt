-- ===== src/SecAlloc/Resize.antt =====
-- src/sec_alloc.rs: `deallocate`, `shrink`, `grow` and the reallocations behind them.
use secmem_alloc.Base.{
  ℕ, leb, ltb, ◌==◌, if◌then◌else◌, M, ◌>>=◌, ◌>>◌, pure, debug_assert, ok, err, add_usize,
  sub_usize,
}
use secmem_alloc.Memory.{ptr_add, new_unchecked, copy_nonoverlapping}
use secmem_alloc.Util.{
  unlikely, nonnull_as_mut_ptr, align_up_usize, is_aligned_ptr, large_offset_from,
}
use secmem_alloc.Zeroize.{zeroize_mem}
use secmem_alloc.Page.{page_size, as_ptr}
use secmem_alloc.Layout.{Layout, alloc_error}
use secmem_alloc.SecAlloc.{
  Sec, SliceResult, get_bytes, get_stack_offset, get_page, set_bytes, set_stack_offset,
  ptr_is_last_allocation, allocate_zerosized, allocate,
}

-- The two preconditions that `deallocate`, `shrink` and `grow_zeroed` check: `ptr` lies in the part
-- of the page that is in use, or at its end.
unfoldable pub check_in_use : ℕ → M Sec (Unit {0})
check_in_use ptr = do
  page ← get_page
  stack_offset ← get_stack_offset
  debug_assert (leb (as_ptr page) ptr)
  top ← add_usize (as_ptr page) stack_offset
  debug_assert (leb ptr top)

-- The end of `deallocate`: `rounded_req_size` bytes less, and the offset reset or rewound.
unfoldable pub rewind : ℕ → ℕ → M Sec (Unit {0})
rewind ptr rounded_req_size = do
  bytes ← get_bytes
  fewer ← sub_usize bytes rounded_req_size
  set_bytes fewer
  if fewer == 0 then set_stack_offset 0 else do
    page ← get_page
    alloc_start_offset ← large_offset_from ptr (as_ptr page)
    alloc_end_offset ← add_usize alloc_start_offset rounded_req_size
    stack_offset ← get_stack_offset
    if alloc_end_offset == stack_offset then set_stack_offset alloc_start_offset else pure tt

unfoldable pub deallocate : ℕ → Layout → M Sec (Unit {0})
deallocate ptr layout = if layout.size == 0 then pure tt else do
  check_in_use ptr
  rounded_req_size ← align_up_usize layout.size 8
  zeroize_mem ptr rounded_req_size
  rewind ptr rounded_req_size

-- The rest of both reallocations, once the new block is allocated.
unfoldable pub move : ℕ → Layout → ℕ → SliceResult → M Sec SliceResult
move ptr old_layout count (err e) = pure (err e)
move ptr old_layout count (ok new_ptr) = do
  copy_nonoverlapping ptr (nonnull_as_mut_ptr new_ptr) count
  deallocate ptr old_layout
  pure (ok new_ptr)

unfoldable pub realloc_shrink : ℕ → Layout → Layout → M Sec SliceResult
realloc_shrink ptr old_layout new_layout = do
  debug_assert (leb new_layout.size old_layout.size)
  new_ptr ← allocate new_layout
  move ptr old_layout new_layout.size new_ptr

unfoldable pub realloc_grow : ℕ → Layout → Layout → M Sec SliceResult
realloc_grow ptr old_layout new_layout = do
  debug_assert (leb old_layout.size new_layout.size)
  new_ptr ← allocate new_layout
  move ptr old_layout old_layout.size new_ptr

-- The branch of `shrink` on an allocation with the alignment that is asked for.
unfoldable pub shrink_in_place : ℕ → Layout → Layout → M Sec SliceResult
shrink_in_place ptr old_layout new_layout = do
  rounded_size ← align_up_usize old_layout.size 8
  new_rounded_size ← align_up_usize new_layout.size 8
  new_alloc_end ← ptr_add ptr new_rounded_size
  size_decrease ← sub_usize rounded_size new_rounded_size
  zeroize_mem new_alloc_end size_decrease
  bytes ← get_bytes
  fewer ← sub_usize bytes size_decrease
  set_bytes fewer
  last ← ptr_is_last_allocation ptr rounded_size
  if last
      then (do
        stack_offset ← get_stack_offset
        rewound ← sub_usize stack_offset size_decrease
        set_stack_offset rewound)
      else pure tt
  addr ← new_unchecked ptr
  pure (ok (record { addr = addr; len = new_rounded_size }))

unfoldable pub shrink : ℕ → Layout → Layout → M Sec SliceResult
shrink ptr old_layout new_layout = do
  debug_assert (leb new_layout.size old_layout.size)
  if new_layout.size == 0
      then (do
        deallocate ptr old_layout
        slice ← allocate_zerosized new_layout.align
        pure (ok slice))
      else do
        check_in_use ptr
        aligned ← is_aligned_ptr ptr new_layout.align
        if aligned
            then shrink_in_place ptr old_layout new_layout
            else realloc_shrink ptr old_layout new_layout

-- The branch of `grow_zeroed` on the last allocation, with the alignment that is asked for.
unfoldable pub grow_in_place : ℕ → ℕ → Layout → M Sec SliceResult
grow_in_place ptr rounded_size new_layout = do
  new_rounded_size ← align_up_usize new_layout.size 8
  if unlikely (new_rounded_size == 0) then pure (err alloc_error) else do
    page ← get_page
    alloc_start_offset ← large_offset_from ptr (as_ptr page)
    room ← sub_usize (page_size page) alloc_start_offset
    if ltb room new_rounded_size then pure (err alloc_error) else do
      size_increase ← sub_usize new_rounded_size rounded_size
      bytes ← get_bytes
      more ← add_usize bytes size_increase
      set_bytes more
      stack_offset ← get_stack_offset
      top ← add_usize stack_offset size_increase
      set_stack_offset top
      addr ← new_unchecked ptr
      pure (ok (record { addr = addr; len = new_rounded_size }))

unfoldable pub grow_zeroed : ℕ → Layout → Layout → M Sec SliceResult
grow_zeroed ptr old_layout new_layout = do
  debug_assert (leb old_layout.size new_layout.size)
  if old_layout.size == 0 then allocate new_layout else do
    check_in_use ptr
    aligned ← is_aligned_ptr ptr new_layout.align
    if aligned
        then (do
          rounded_size ← align_up_usize old_layout.size 8
          last ← ptr_is_last_allocation ptr rounded_size
          if last
              then grow_in_place ptr rounded_size new_layout
              else realloc_grow ptr old_layout new_layout)
        else realloc_grow ptr old_layout new_layout

unfoldable pub grow : ℕ → Layout → Layout → M Sec SliceResult
grow ptr old_layout new_layout = grow_zeroed ptr old_layout new_layout
