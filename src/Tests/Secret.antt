-- ===== src/Tests/Secret.antt =====
-- Two runs of the wrapper of src/zeroizing_alloc.rs over the allocator of src/sec_alloc.rs.
use secmem_alloc.Base.{ℕ, ◌≡◌, refl, ◌∙◌, ap, inl, inr, List, [], ◌∷◌, arith, done, ok}
use secmem_alloc.Memory.{fill}
use secmem_alloc.Memory.Ranges.{fill-inside, fill-outside}
use secmem_alloc.Traits.{WritesIn}
use secmem_alloc.Traits.Discreet.{Beyond, Anywhere, IsDiscreet-less}
use secmem_alloc.Traits.Runs.{
  Answer, allocate_both, Lease, Holding, Twins, begin, deallocate_both, write_both,
}
use secmem_alloc.Traits.Secrets.{SameOutside}
use secmem_alloc.SecAlloc.{Sec, SecStackSinglePageAlloc}
use secmem_alloc.Layout.{Layout}
use secmem_alloc.SecAlloc.Allocate.{slice}
use secmem_alloc.SecAlloc.Invariant.{Inv}
use secmem_alloc.SecAlloc.Deallocate.{freed, deallocate-eq}
use secmem_alloc.SecAlloc.Refine.{sec_allocator, sec_allocator-IsAllocator}
use secmem_alloc.SecAlloc.Refine.Allotted.{Live, writable}
use secmem_alloc.SecAlloc.Discreet.{sec_allocator-IsDiscreet}
use secmem_alloc.ZeroizingAlloc.{ZeroizeAlloc, outer, rewrap, zeroizing_allocator}
use secmem_alloc.ZeroizingAlloc.OverPage.{over_page-eq}
use secmem_alloc.ZeroizingAlloc.Secrets.{wrapper-SameOutside}
use secmem_alloc.Tests.Run.{allocate-five}
use secmem_alloc.Tests.Machine.{
  at_start, at_start-Inv, one_page, five, three, five-IsLayout, three-IsLayout, low, after_five,
  after_five-Inv,
}

abbrev lease : Lease
lease = record { addr = 0x1000; layout = five }

-- The block of five bytes is held; then it is filled, and given back.
abbrev filled : ℕ → Sec
filled v = record after_five { mem = fill one_page 0x1000 v 5 }

abbrev holding : List Lease → Sec → Holding (ZeroizeAlloc SecStackSinglePageAlloc)
holding held w = record { held = held; world = outer w }

low-Live : Live (low ∷ []) 0x1000 five
low-Live = (five-IsLayout, inr (low, inl refl, refl, (omega arith, refl)))

filled-WritesIn : (v : ℕ) → WritesIn 0x1000 five one_page (filled v).mem
filled-WritesIn v = record {
  elsewhere = fill-outside one_page 0x1000 v 5;
  still_mapped = λ a h k. rw (fill-inside one_page 0x1000 v 5 a h k) refl;
}

filled-Inv : (v : ℕ) → Inv (low ∷ []) (filled v)
filled-Inv v =
    writable (low ∷ []) after_five 0x1000 five (filled v).mem after_five-Inv low-Live
      (filled-WritesIn v)

given_back :
    (v : ℕ)
    → (zeroizing_allocator sec_allocator).deallocate 0x1000 five (outer (filled v))
      ≡ done (tt, outer (freed (filled v) low))
given_back v =
    (over_page-eq (low ∷ []) (filled v) 0x1000 five three (filled-Inv v) low-Live three-IsLayout).2
    ∙ ap rewrap (deallocate-eq [] [] low (filled-Inv v) five (omega arith, refl))

abbrev nothing : Layout
nothing = record { size = 0; align = 1 }

taken :
    (zeroizing_allocator sec_allocator).allocate five (outer at_start)
    ≡ done (ok (slice 0x1000 8), outer after_five)
taken =
    (over_page-eq [] at_start 1 nothing five at_start-Inv
      (record { power = (0, omega arith, refl); fits = omega arith }, inl (refl, omega arith))
      five-IsLayout).0
    ∙ ap rewrap allocate-five

abbrev answers : List Answer
answers = ok (slice 0x1000 8) ∷ []

sevens_and_nines :
    Twins
      (zeroizing_allocator sec_allocator)
      (holding [] at_start)
      answers
      (holding [] (freed (filled 7) low))
      answers
      (holding [] (freed (filled 9) low))
sevens_and_nines =
    deallocate_both
      (write_both
        (allocate_both begin five (ok (slice 0x1000 8)) (ok (slice 0x1000 8)) (outer after_five)
          (outer after_five) five-IsLayout taken taken)
        [] [] lease (filled 7).mem (filled 9).mem refl refl (filled-WritesIn 7) (filled-WritesIn 9))
      [] [] lease (outer (freed (filled 7) low)) (outer (freed (filled 9) low)) refl refl
      (given_back 7) (given_back 9)

wrapper-SameOutside_example :
    (answers ≡ answers)
    × SameOutside (holding [] (freed (filled 7) low)) (holding [] (freed (filled 9) low))
wrapper-SameOutside_example =
    wrapper-SameOutside Inv Live sec_allocator sec_allocator-IsAllocator
      (IsDiscreet-less Inv Live Beyond Anywhere sec_allocator (λ p l x beyond. tt)
        sec_allocator-IsDiscreet)
      [] (at_start-Inv, tt) sevens_and_nines
