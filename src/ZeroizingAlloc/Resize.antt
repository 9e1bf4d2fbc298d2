-- ===== src/ZeroizingAlloc/Resize.antt =====
-- `grow`, `grow_zeroed` and `shrink` of `Allocator`, which `allocator_api2` provides and
-- src/zeroizing_alloc.rs leaves as they are.
use secmem_alloc.Base.{
  ℕ, ◌+◌, ◌≤◌, ◌<◌, ◌≡◌, ◌⊎◌, inl, inr, some, sym, ◌∙◌, Outcome, done, Result, ok, err,
}
use secmem_alloc.Memory.{World}
use secmem_alloc.Util.{Slice}
use secmem_alloc.Layout.{Layout, IsLayout, AllocError, alloc_error}
use secmem_alloc.Traits.{Allocator, SameBytes}
use secmem_alloc.Traits.Contract.{IsAllocator}
use secmem_alloc.Traits.Provided.{Resize, IsProvided, IsProvidedGrowZeroed}
use secmem_alloc.Traits.Moves.{IsMoved, provided-Resizes, provided-ResizesZeroed}
use secmem_alloc.ZeroizingAlloc.{
  ZeroizeAlloc, inner, allocate, allocate_zeroed, zeroizing_allocator,
}
use secmem_alloc.ZeroizingAlloc.Wiped.{deallocate-WipesFirst, rewrap_inj}
use secmem_alloc.ZeroizingAlloc.Allocates.{OuterReady, zeroizing_allocator-IsAllocator}

module _ {A G : Type 0} (Ready : G → World A → Type 0) (Live : G → ℕ → Layout → Type 0)
    (backend : Allocator A) where
  -- The last call that is made is `deallocate` of the backend on the block, and then it is wiped.
  abbrev pub GivesBackWiped : ℕ → Layout → World (ZeroizeAlloc A) → Type 0
  GivesBackWiped p l w' =
      (v : World A) × ((a : ℕ) → p ≤ a → a < p + l.size → v.mem a ≡ some 0)
      × (backend.deallocate p l v ≡ done (tt, inner w'))

  -- The block is moved and the old one is wiped; or `allocate` returns an error, which the call returns,
  -- and then nothing changes for the owners of blocks.
  abbrev pub ResizesWiping :
      ℕ
      → ℕ
      → Layout
      → Layout
      → G
      → World (ZeroizeAlloc A)
      → Outcome (Result Slice AllocError × World (ZeroizeAlloc A))
      → Type 0
  ResizesWiping count p old new g w o =
      ((s : Slice) × (g' : G) × (w' : World (ZeroizeAlloc A)) × (o ≡ done (ok s, w'))
        × IsMoved (OuterReady Ready) Live (zeroizing_allocator backend) count p old new g w s g' w'
        × GivesBackWiped p old w')
      ⊎ ((w' : World (ZeroizeAlloc A)) × (allocate backend new w ≡ done (err alloc_error, w'))
          × (o ≡ done (err alloc_error, w'))
          × OuterReady Ready g w'
          × ((q : ℕ) (k : Layout) → Live g q k → SameBytes q k w.mem w'.mem))

  -- The same with `allocate_zeroed`; the rest of the new block is zeroed.
  abbrev pub ResizesZeroedWiping :
      ℕ
      → Layout
      → Layout
      → G
      → World (ZeroizeAlloc A)
      → Outcome (Result Slice AllocError × World (ZeroizeAlloc A))
      → Type 0
  ResizesZeroedWiping p old new g w o =
      ((s : Slice) × (g' : G) × (w' : World (ZeroizeAlloc A)) × (o ≡ done (ok s, w'))
        × IsMoved (OuterReady Ready) Live (zeroizing_allocator backend) old.size p old new g w s g'
            w'
        × ((x : ℕ) → s.addr + old.size ≤ x → x < s.addr + new.size → w'.mem x ≡ some 0)
        × GivesBackWiped p old w')
      ⊎ ((w' : World (ZeroizeAlloc A)) × (allocate_zeroed backend new w
            ≡ done (err alloc_error, w'))
          × (o ≡ done (err alloc_error, w'))
          × OuterReady Ready g w'
          × ((q : ℕ) (k : Layout) → Live g q k → SameBytes q k w.mem w'.mem))

module _ {A G : Type 0} (Ready : G → World A → Type 0) (Live : G → ℕ → Layout → Type 0)
    (backend : Allocator A) (laws : IsAllocator Ready Live backend) where
  outer_laws : IsAllocator (OuterReady Ready) Live (zeroizing_allocator backend)
  outer_laws = zeroizing_allocator-IsAllocator Ready Live backend laws

  released-GivesBackWiped :
      (p : ℕ) (l : Layout) (h : G) (v w' : World (ZeroizeAlloc A))
      → OuterReady Ready h v
      → Live h p l
      → (zeroizing_allocator backend).deallocate p l v ≡ done (tt, w')
      → GivesBackWiped Ready Live backend p l w'
  released-GivesBackWiped p l h v w' ready live ran =
      let lent = outer_laws.lent h v p l ready live in
      let (m, calls, zeros, same) = deallocate-WipesFirst backend v p l lent.layout lent.mapped in
      (record (inner v) { mem = m }, zeros, rewrap_inj _ w' (sym calls ∙ ran))

  -- If the backend keeps the contract of `Allocator`, then a call of the provided `grow` or
  -- `shrink` on a live block through the wrapper, for a valid layout, and that copies a number
  -- of bytes that both layouts have, either returns a live, aligned and new block that begins
  -- with these bytes of the old one, with all other blocks kept, and ends with `deallocate` of
  -- the backend on a memory in which the whole old block is 0; or `allocate` of the wrapper
  -- returns an error, and then the call returns it and nothing changes for the owners of blocks.
  pub resize_wipes :
      (resize : Resize (ZeroizeAlloc A)) (count : Layout → Layout → ℕ)
      → IsProvided (λ self. self.allocate) count resize
      → (g : G) (w : World (ZeroizeAlloc A)) (p : ℕ) (old new : Layout) → OuterReady Ready g w
      → Live g p old
      → IsLayout new
      → count old new ≤ old.size
      → count old new ≤ new.size
      → ResizesWiping Ready Live backend
          (count old new)
          p
          old
          new
          g
          w
          (resize (zeroizing_allocator backend) p old new w)
  resize_wipes resize count provided g w p old new ready live lay in_old in_new =
      elim (provided-Resizes (OuterReady Ready) Live (zeroizing_allocator backend) outer_laws g w p
        old new live lay resize ready count provided in_old in_new) [
          | inl (s, g', w', ran, moved) ↦
              let (h, v, ready_v, live_v, freed) = moved.released in
              inl (s, g', w', ran, moved, released-GivesBackWiped p old h v w' ready_v live_v freed)
          | inr failed ↦ inr failed
        ]

  -- If the backend keeps the contract of `Allocator`, then a call of the provided `grow_zeroed`
  -- on a live block through the wrapper, for a valid layout that is not smaller, either returns
  -- a live, aligned and new block that begins with the bytes of the old one and is 0 in the
  -- rest, with all other blocks kept, and ends with `deallocate` of the backend on a memory in
  -- which the whole old block is 0; or `allocate_zeroed` of the wrapper returns an error, and
  -- then the call returns it and nothing changes for the owners of blocks.
  pub grow_zeroed_wipes :
      (grow_zeroed : Resize (ZeroizeAlloc A))
      → IsProvidedGrowZeroed grow_zeroed
      → (g : G) (w : World (ZeroizeAlloc A)) (p : ℕ) (old new : Layout) → OuterReady Ready g w
      → Live g p old
      → IsLayout new
      → old.size ≤ new.size
      → ResizesZeroedWiping Ready Live backend p old new g w
          (grow_zeroed (zeroizing_allocator backend) p old new w)
  grow_zeroed_wipes grow_zeroed provided g w p old new ready live lay le =
      elim (provided-ResizesZeroed (OuterReady Ready) Live (zeroizing_allocator backend) outer_laws
        g w p old new live lay grow_zeroed ready provided le) [
          | inl (s, g', w', ran, moved, zeros) ↦
              let (h, v, ready_v, live_v, freed) = moved.released in
              inl (
                s,
                g',
                w',
                ran,
                moved,
                zeros,
                released-GivesBackWiped p old h v w' ready_v live_v freed,
              )
          | inr failed ↦ inr failed
        ]
