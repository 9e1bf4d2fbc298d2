-- ===== src/SecAlloc/Client/Progress.antt =====
-- What clients of the allocator of src/sec_alloc.rs can get once they have given everything back.
use secmem_alloc.Base.{◌+◌, ◌%◌, ◌≤◌, ◌<◌, ◌≡◌, refl, ◌∙◌, [], arith, done, ok, le→leb}
use secmem_alloc.Util.Align.{round8, pos_of_power}
use secmem_alloc.Layout.{Layout, IsLayout}
use secmem_alloc.SecAlloc.{Sec, allocate}
use secmem_alloc.SecAlloc.Invariant.{Inv, stack_top, page_end}
use secmem_alloc.SecAlloc.Allocate.{slice, claimed, block_addr, block_addr_lem, allocate_zeroed-eq}
use secmem_alloc.SecAlloc.Fresh.{block_addr-least}
use secmem_alloc.SecAlloc.Client.{Reach}
use secmem_alloc.SecAlloc.Client.Safety.{Reach-Inv}

-- With nothing alive, a block that starts with the page is the first that can be had.
allocate_at_start :
    {w : Sec} (l : Layout)
    → Inv [] w
    → IsLayout l
    → 0 < l.size
    → w.alloc.page.page_ptr % l.align ≡ 0
    → round8 l.size ≤ w.alloc.page.page_size
    → allocate l w
      ≡ done (
        ok (slice w.alloc.page.page_ptr (round8 l.size)),
        claimed w w.alloc.page.page_ptr (round8 l.size),
      )
unfolding allocate
allocate_at_start {w} l inv lay pos aligned fits =
    allocate_zeroed-eq inv l lay pos
    ∙ rw (start, le→leb (w.alloc.page.page_ptr + round8 l.size) (page_end w) (omega arith)) refl
  where
    reset : w.alloc.stack_offset ≡ 0
    reset = inv.reset inv.counted

    start : block_addr (stack_top w) l.align ≡ w.alloc.page.page_ptr
    start = omega (
      arith,
      reset,
      block_addr_lem inv l lay,
      block_addr-least (stack_top w) l.align w.alloc.page.page_ptr (pos_of_power lay.power)
          (omega (arith, reset)) aligned,
    )

-- After any sequence of steps of clients from a state in which the invariant holds with no block
-- alive, and once all blocks are given back, in whatever order: every layout that is not empty,
-- that the start of the page is aligned for and that fits the page, rounded up to 8, is
-- allocated at the start of the page.
pub Reach-allocate :
    {w v : Sec} (l : Layout)
    → Inv [] w
    → Reach (record { live = []; world = w }) (record { live = []; world = v })
    → IsLayout l
    → 0 < l.size
    → v.alloc.page.page_ptr % l.align ≡ 0
    → round8 l.size ≤ v.alloc.page.page_size
    → allocate l v
      ≡ done (
        ok (slice v.alloc.page.page_ptr (round8 l.size)),
        claimed v v.alloc.page.page_ptr (round8 l.size),
      )
Reach-allocate l inv reach = allocate_at_start l (Reach-Inv inv reach)
