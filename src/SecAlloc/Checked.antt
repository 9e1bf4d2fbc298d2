-- ===== src/SecAlloc/Checked.antt =====
-- `consistency_check` of src/sec_alloc.rs, the crate's own test of its state.
use secmem_alloc.Base.{◌%◌, ◌≡◌, arith, done, eq→==, le→leb}
use secmem_alloc.SecAlloc.{Sec, consistency_check}
use secmem_alloc.SecAlloc.Blocks.{Blocks, total-le, total-mod}
use secmem_alloc.SecAlloc.Invariant.{Inv}

-- Every state that satisfies the invariant passes the five assertions of `consistency_check`.
pub consistency_check-done : {bs : Blocks} {w : Sec} → Inv bs w → consistency_check w ≡ done (tt, w)
unfolding consistency_check
consistency_check-done {bs} {w} inv = rw (
  eq→== (w.alloc.stack_offset % 8) 0 inv.offset_aligned,
  le→leb w.alloc.stack_offset w.alloc.page.page_size inv.offset_in_page,
  eq→== (w.alloc.page.page_ptr % 8) 0 inv.page.aligned,
  le→leb w.alloc.bytes w.alloc.stack_offset (omega (arith, total-le _ _ bs inv.stacked)),
  eq→== (w.alloc.bytes % 8) 0 (omega (arith, total-mod _ _ bs inv.stacked)),
)
