-- ===== src/Tests/Life.antt =====
-- An allocator on a page of the simple system, from `new` to `drop`.
use secmem_alloc.Base.{◌≡◌, true, refl, ◌∷◌, [], arith, done, ok}
use secmem_alloc.Page.Unix.{freebsd, source}
use secmem_alloc.SecAlloc.{SecStackSinglePageAlloc, Sec, allocate}
use secmem_alloc.SecAlloc.Blocks.{Block}
use secmem_alloc.SecAlloc.Invariant.{Inv}
use secmem_alloc.SecAlloc.Allocate.{slice, allocate_zeroed-eq}
use secmem_alloc.SecAlloc.Deallocate.{freed, deallocate-eq}
use secmem_alloc.SecAlloc.New.{new}
use secmem_alloc.SecAlloc.Client.{Step, here, next, allocates, deallocates}
use secmem_alloc.SecAlloc.Client.Safety.{Step-Inv}
use secmem_alloc.SecAlloc.Lifetime.{Restores, new-eq, Inv-new, new-Restores}
use secmem_alloc.Tests.Machine.{five, five-IsLayout}
use secmem_alloc.Tests.Systems.{rustix, rustix-IsRustix, rustix_lem, empty, with_one_page, the_page}

abbrev born : SecStackSinglePageAlloc
born = record { bytes = 0; page = the_page; stack_offset = 0 }

abbrev unused : Sec
unused = record { alloc = born; mem = with_one_page.mem }

new-born : new (source rustix rustix-IsRustix freebsd) empty ≡ done (ok born, with_one_page)
new-born = new-eq (source rustix rustix-IsRustix freebsd) empty with_one_page the_page rustix_lem

unused-Inv : Inv [] unused
unused-Inv = Inv-new (source rustix rustix-IsRustix freebsd) empty with_one_page born new-born

abbrev bottom : Block
bottom = record { addr = 0x3000; size = 8 }

abbrev used : Sec
used = record { alloc = record born { bytes = 8; stack_offset = 8 }; mem = with_one_page.mem }

allocate_bottom : allocate five unused ≡ done (ok (slice 0x3000 8), used)
unfolding allocate
allocate_bottom = allocate_zeroed-eq unused-Inv five five-IsLayout (omega arith)

allocate-Step :
    Step (record { live = []; world = unused }) (record { live = bottom ∷ []; world = used })
allocate-Step = allocates five (ok (slice 0x3000 8), used) five-IsLayout allocate_bottom refl

deallocate-Step :
    Step
      (record { live = bottom ∷ []; world = used })
      (record { live = []; world = freed used bottom })
deallocate-Step =
    deallocates [] bottom [] five (freed used bottom) (refl, (omega arith, refl))
      (deallocate-eq [] [] bottom (Step-Inv allocate-Step unused-Inv) five (omega arith, refl)) refl

new-Restores_example :
    Restores (source rustix rustix-IsRustix freebsd) empty.mem true (freed used bottom)
new-Restores_example =
    new-Restores (source rustix rustix-IsRustix freebsd) empty with_one_page born
      (freed used bottom) new-born (next (next here allocate-Step) deallocate-Step)
