-- ===== src/Tests/Edges.antt =====
-- The theorems on the allocator of src/sec_alloc.rs at the edges of its contract: misuse, the last
-- block that is given back, and the drop.
use secmem_alloc.Base.{◌≡◌, ◌≢◌, ◌⊎◌, inr, refl, arith, done, ok, fault, abort, panic}
use secmem_alloc.SecAlloc.{allocate, drop, drop_no_std}
use secmem_alloc.SecAlloc.Resize.{deallocate, shrink, grow}
use secmem_alloc.SecAlloc.Allocate.{slice, claimed}
use secmem_alloc.SecAlloc.Misuse.{outside_panics, deallocate_again_panics}
use secmem_alloc.SecAlloc.Dropped.{AllZero}
use secmem_alloc.SecAlloc.Dropped.Ends.{SomeByte, drop_terminates}
use secmem_alloc.SecAlloc.Client.Progress.{Reach-allocate}
use secmem_alloc.Tests.Machine.{
  page-IsPage, at_start, at_start-Inv, five, sixteen, three, sixteen-IsLayout, after_sixteen,
}
use secmem_alloc.Tests.Run.{after_write, after_write-Inv, after_all, Reach-nothing_left}

-- An address behind the two blocks.
outside_panics_example :
    (deallocate 0x1080 five after_sixteen ≡ fault panic)
    × (shrink 0x1080 five three after_sixteen ≡ fault panic)
    × (grow 0x1080 five three after_sixteen ≡ fault panic)
outside_panics_example =
    outside_panics after_sixteen 0x1080 five three (omega arith) (inr (omega arith)) (omega arith)

deallocate_again_panics_example : deallocate 0x1000 five at_start ≡ fault panic
deallocate_again_panics_example =
    deallocate_again_panics 0x1000 five at_start-Inv (omega arith) (omega arith)

-- Both blocks were given back, the lower one first.
Reach-allocate_example :
    allocate sixteen after_all ≡ done (ok (slice 0x1000 16), claimed after_all 0x1000 16)
Reach-allocate_example =
    Reach-allocate sixteen at_start-Inv Reach-nothing_left sixteen-IsLayout (omega arith) refl
      (omega arith)

-- Sevens are in the page, and two blocks are alive.
drop_terminates_example :
    ((drop after_write ≡ done (tt, after_write))
      × (drop_no_std after_write ≡ done (tt, after_write))
      × (after_write.alloc.bytes ≡ 0)
      × AllZero after_write)
    ⊎ ((drop after_write ≡ fault abort)
        × (drop_no_std after_write ≡ fault panic)
        × ((after_write.alloc.bytes ≢ 0) ⊎ SomeByte after_write))
drop_terminates_example = drop_terminates after_write page-IsPage after_write-Inv.mapped
