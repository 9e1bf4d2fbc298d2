-- ===== src/ZeroizingAlloc/Secrets.antt =====
-- Two runs of the clients of the wrapper of src/zeroizing_alloc.rs that differ in the bytes that are
-- written.
use secmem_alloc.Base.{ℕ, ◌≡◌, List}
use secmem_alloc.Memory.{World}
use secmem_alloc.Layout.{Layout}
use secmem_alloc.Traits.{Allocator}
use secmem_alloc.Traits.Contract.{IsAllocator}
use secmem_alloc.Traits.Discreet.{Anywhere, IsDiscreet}
use secmem_alloc.Traits.Runs.{Answer, Holding, Twins}
use secmem_alloc.Traits.Holding.{IsHolding}
use secmem_alloc.Traits.Secrets.{SameOutside, Twins-SameOutside}
use secmem_alloc.ZeroizingAlloc.{ZeroizeAlloc, zeroizing_allocator}
use secmem_alloc.ZeroizingAlloc.Allocates.{OuterReady, zeroizing_allocator-IsAllocator}
use secmem_alloc.ZeroizingAlloc.Discreet.{zeroizing_allocator-IsDiscreet}

module _ {A G : Type 0} (Ready : G → World A → Type 0) (Live : G → ℕ → Layout → Type 0)
    (backend : Allocator A) (laws : IsAllocator Ready Live backend)
    (discreet : IsDiscreet Ready Live Anywhere backend) where
  -- The backend keeps the contract of `Allocator`, and treats alike two states that differ only
  -- in bytes of live blocks, and not in those of a block that is given back. Then two runs of
  -- the clients of the wrapper from one state, with the same calls of `allocate`,
  -- `allocate_zeroed` and `deallocate`, but with other bytes written to the blocks that they
  -- hold, get the same answers and hold the same blocks, and leave the same state of the
  -- allocator and the same bytes outside of these blocks.
  pub wrapper-SameOutside :
      {s t t' : Holding (ZeroizeAlloc A)} {rs rs' : List Answer} (g : G)
      → IsHolding (OuterReady Ready) Live g s
      → Twins (zeroizing_allocator backend) s rs t rs' t'
      → (rs ≡ rs') × SameOutside t t'
  wrapper-SameOutside =
      Twins-SameOutside (OuterReady Ready) Live (zeroizing_allocator backend)
        (zeroizing_allocator-IsAllocator Ready Live backend laws)
        (zeroizing_allocator-IsDiscreet Ready Live backend laws discreet)
