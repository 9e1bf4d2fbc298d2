-- ===== src/Tests/Composed.antt =====
-- The wrapper of src/zeroizing_alloc.rs over the allocator of src/sec_alloc.rs.
use secmem_alloc.Base.{◌+◌, ◌≡◌, inl, inr, refl, [], ◌∷◌, arith}
use secmem_alloc.Memory.{World}
use secmem_alloc.Traits.Contract.{IsAllocator}
use secmem_alloc.SecAlloc.{SecStackSinglePageAlloc}
use secmem_alloc.SecAlloc
use secmem_alloc.SecAlloc.Resize
use secmem_alloc.SecAlloc.Invariant.{Inv}
use secmem_alloc.SecAlloc.Refine.Allotted.{Live}
use secmem_alloc.SecAlloc.Refine.{sec_allocator, sec_allocator-IsAllocator}
use secmem_alloc.ZeroizingAlloc.{
  ZeroizeAlloc, inner, outer, rewrap, allocate, allocate_zeroed, deallocate, zeroizing_allocator,
}
use secmem_alloc.ZeroizingAlloc.Allocates.{zeroizing_allocator-IsAllocator}
use secmem_alloc.ZeroizingAlloc.OverPage.{over_page-eq}
use secmem_alloc.ZeroizingAlloc.Resize.{
  ResizesWiping, ResizesZeroedWiping, resize_wipes, grow_zeroed_wipes,
}
use secmem_alloc.Tests.Provided.{
  grow, grow_zeroed, grow_zeroed-IsProvidedGrowZeroed, shrink, grow-IsProvidedGrow,
  shrink-IsProvidedShrink,
}
use secmem_alloc.CrateTests.Wrapper.{with_wrapper, body, wrapper_methods, vec_shrink}
use secmem_alloc.CrateTests.Vecs.{Methods, Bytes}
use secmem_alloc.CrateTests.VecWiped.{GrowsWiping, reserve_wipes}
use secmem_alloc.CrateTests.Refusal.{PassesOrRefuses}
use secmem_alloc.CrateTests.WrapperPass.{wrapper_test_passes}
use secmem_alloc.Tests.Boxed.{boxes, boxes-IsBoxApi, exact, vecs, vecs-IsVecApi}
use secmem_alloc.Tests.Machine.{
  five, sixteen, sixteen-IsLayout, three, five-IsLayout, three-IsLayout, low, high,
}
use secmem_alloc.Tests.Run.{after_write, after_write-Inv}

zeroizing_allocator-IsAllocator_example :
    IsAllocator
      (λ bs (w : World (ZeroizeAlloc SecStackSinglePageAlloc)). Inv bs (inner w))
      Live
      (zeroizing_allocator sec_allocator)
zeroizing_allocator-IsAllocator_example =
    zeroizing_allocator-IsAllocator Inv Live sec_allocator sec_allocator-IsAllocator

over_page-eq_example :
    (allocate sec_allocator three (outer after_write)
      ≡ rewrap (SecAlloc.allocate three after_write))
    × (allocate_zeroed sec_allocator three (outer after_write)
        ≡ rewrap (SecAlloc.allocate_zeroed three after_write))
    × (deallocate sec_allocator 0x1000 five (outer after_write)
        ≡ rewrap (Resize.deallocate 0x1000 five after_write))
over_page-eq_example =
    over_page-eq (high ∷ low ∷ []) after_write 0x1000 five three after_write-Inv
      (five-IsLayout, inr (low, inr (inl refl), refl, (omega arith, refl))) three-IsLayout

-- The lower block is grown through the wrapper, and there is room for a new one.
resize_wipes_example :
    ResizesWiping Inv Live sec_allocator 5 0x1000 five sixteen
      (high ∷ low ∷ [])
      (outer after_write)
      (grow (zeroizing_allocator sec_allocator) 0x1000 five sixteen (outer after_write))
resize_wipes_example =
    resize_wipes Inv Live sec_allocator sec_allocator-IsAllocator grow (λ old new. old.size)
      grow-IsProvidedGrow (high ∷ low ∷ []) (outer after_write) 0x1000 five sixteen after_write-Inv
      (five-IsLayout, inr (low, inr (inl refl), refl, (omega arith, refl))) sixteen-IsLayout
      (omega arith) (omega arith)

grow_zeroed_wipes_example :
    ResizesZeroedWiping Inv Live sec_allocator 0x1000 five sixteen
      (high ∷ low ∷ [])
      (outer after_write)
      (grow_zeroed (zeroizing_allocator sec_allocator) 0x1000 five sixteen (outer after_write))
grow_zeroed_wipes_example =
    grow_zeroed_wipes Inv Live sec_allocator sec_allocator-IsAllocator grow_zeroed
      grow_zeroed-IsProvidedGrowZeroed (high ∷ low ∷ []) (outer after_write) 0x1000 five sixteen
      after_write-Inv (five-IsLayout, inr (low, inr (inl refl), refl, (omega arith, refl)))
      sixteen-IsLayout (omega arith)

abbrev methods : Methods (ZeroizeAlloc SecStackSinglePageAlloc)
methods = wrapper_methods sec_allocator grow shrink

-- A test of the wrapper on a page on which two blocks are alive.
wrapper_test_passes_example :
    PassesOrRefuses Inv Live sec_allocator exact
      (vecs methods)
      vec_shrink
      (high ∷ low ∷ [])
      after_write
      (with_wrapper sec_allocator
        (body sec_allocator (boxes (zeroizing_allocator sec_allocator)) (vecs methods) vec_shrink)
        after_write)
wrapper_test_passes_example =
    wrapper_test_passes Inv Live sec_allocator sec_allocator-IsAllocator
      (boxes (zeroizing_allocator sec_allocator))
      (boxes-IsBoxApi (zeroizing_allocator sec_allocator)) grow shrink shrink-IsProvidedShrink exact
      (vecs methods) (vecs-IsVecApi methods) vec_shrink (high ∷ low ∷ []) after_write
      after_write-Inv

-- The lower block is that of a vector with three bytes in use.
abbrev vector : Bytes
vector = record { ptr = 0x1000; cap = 5; len = 3 }

reserve_wipes_example :
    GrowsWiping Inv Live sec_allocator
      (3 + 9)
      (3 + 9)
      vector
      (high ∷ low ∷ [])
      (outer after_write)
      ((vecs methods).reserve vector 9 (outer after_write))
reserve_wipes_example =
    reserve_wipes Inv Live sec_allocator sec_allocator-IsAllocator grow shrink grow-IsProvidedGrow
      exact (vecs methods) (vecs-IsVecApi methods) (high ∷ low ∷ []) (outer after_write) vector 9
      after_write-Inv (five-IsLayout, inr (low, inr (inl refl), refl, (omega arith, refl)))
      (omega arith) (omega arith) (omega arith)
