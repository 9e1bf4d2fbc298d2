-- ===== src/Traits/Provided.antt =====
-- The methods that `core` and `allocator_api2` provide for an allocator, and that
-- src/zeroizing_alloc.rs leaves as they are. They are parameters: all that is relied on is that they
-- allocate a new block, copy, and give the old block back, with the methods of the allocator that they
-- are called on.
use secmem_alloc.Base.{ℕ, ◌<◌, ◌≡◌, M, ◌>>◌, pure, done, Result, ok, err, leb, if◌then◌else◌}
use secmem_alloc.Memory.{World, copy_nonoverlapping}
use secmem_alloc.Util.{Slice}
use secmem_alloc.Layout.{Layout, AllocError}
use secmem_alloc.Traits.{GlobalAlloc, Allocator}

abbrev pub Resize : Type 0 → Type 0
Resize A = Allocator A → ℕ → Layout → Layout → M (World A) (Result Slice AllocError)

module _ {A : Type 0} where
  -- The end of a `realloc` that has found a block.
  abbrev pub moves : GlobalAlloc A → ℕ → Layout → ℕ → ℕ → M (World A) ℕ
  moves self ptr layout new_size new_ptr = do
    copy_nonoverlapping ptr new_ptr (if leb layout.size new_size then layout.size else new_size)
    self.dealloc ptr layout
    pure new_ptr

  -- `GlobalAlloc::realloc`
  pub record IsProvidedRealloc (realloc : GlobalAlloc A → ℕ → Layout → ℕ → M (World A) ℕ)
      : Type 0 where
    pub refused :
        (self : GlobalAlloc A) (ptr : ℕ) (layout : Layout) (new_size : ℕ) (w w' : World A)
        → self.alloc (record { size = new_size; align = layout.align }) w ≡ done (0, w')
        → realloc self ptr layout new_size w ≡ done (0, w')
    pub moved :
        (self : GlobalAlloc A) (ptr : ℕ) (layout : Layout) (new_size new_ptr : ℕ) (w w' : World A)
        → 0 < new_ptr
        → self.alloc (record { size = new_size; align = layout.align }) w ≡ done (new_ptr, w')
        → realloc self ptr layout new_size w ≡ moves self ptr layout new_size new_ptr w'

  -- The end of a `grow` or a `shrink` that has found a block.
  abbrev pub moves_to : Allocator A → ℕ → Layout → ℕ → Slice → M (World A) (Result Slice AllocError)
  moves_to self ptr old_layout count new_ptr = do
    copy_nonoverlapping ptr new_ptr.addr count
    self.deallocate ptr old_layout
    pure (ok new_ptr)

  -- `Allocator::grow`, `grow_zeroed` and `shrink` differ in how they allocate and in what they copy.
  pub record IsProvided (allocate : Allocator A → Layout → M (World A) (Result Slice AllocError))
      (count : Layout → Layout → ℕ) (resize : Resize A) : Type 0 where
    pub refused :
        (self : Allocator A) (ptr : ℕ) (old_layout new_layout : Layout) (e : AllocError)
        (w w' : World A)
        → allocate self new_layout w ≡ done (err e, w')
        → resize self ptr old_layout new_layout w ≡ done (err e, w')
    pub moved :
        (self : Allocator A) (ptr : ℕ) (old_layout new_layout : Layout) (new_ptr : Slice)
        (w w' : World A)
        → allocate self new_layout w ≡ done (ok new_ptr, w')
        → resize self ptr old_layout new_layout w
          ≡ moves_to self ptr old_layout (count old_layout new_layout) new_ptr w'

  abbrev pub IsProvidedGrow : Resize A → Type 0
  IsProvidedGrow = IsProvided (λ self. self.allocate) (λ old new. old.size)

  abbrev pub IsProvidedGrowZeroed : Resize A → Type 0
  IsProvidedGrowZeroed = IsProvided (λ self. self.allocate_zeroed) (λ old new. old.size)

  abbrev pub IsProvidedShrink : Resize A → Type 0
  IsProvidedShrink = IsProvided (λ self. self.allocate) (λ old new. new.size)
