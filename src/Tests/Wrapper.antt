-- ===== src/Tests/Wrapper.antt =====
-- The wrapper of src/zeroizing_alloc.rs over a simple backend.
use secmem_alloc.Base.{
  ◌⊎◌, ◌+◌, ◌≤◌, ◌<◌, done, ℕ, ◌≡◌, inl, refl, none, some, arith, err, if◌then◌else◌, fault, abort,
  pure, M, ◌==◌, ◌>>=◌, pos→==,
}
use secmem_alloc.Memory.{World, in_range}
use secmem_alloc.Traits.{Allocator, GlobalAlloc}
use secmem_alloc.Layout.{Layout, alloc_error}
use secmem_alloc.ZeroizingAlloc.{ZeroizeAlloc, inner, dealloc, deallocate, zeroizing}
use secmem_alloc.ZeroizingAlloc.Contract.{IsHeld, IsGlobalAlloc, Reallocates}
use secmem_alloc.Traits.Provided.{moves, IsProvidedRealloc}
use secmem_alloc.ZeroizingAlloc.Wiped.{
  WipesFirst, dealloc-WipesFirst, dealloc_aborts, deallocate-WipesFirst,
}
use secmem_alloc.ZeroizingAlloc.Refine.{zeroizing-IsGlobalAlloc, realloc_wipes}
use secmem_alloc.Tests.Machine.{five, five-IsLayout}
use secmem_alloc.Tests.Bump.{Bump, Ready, Live, bump, bump-IsGlobalAlloc}

-- The block of five bytes at the start of the region is live, and full of sevens.
abbrev in_use : World (ZeroizeAlloc ℕ)
in_use = record {
  alloc = record { backend_alloc = 0x1005 };
  mem = λ a. if in_range 0x1000 0x1000 a then some 7 else none;
}

in_use-IsHeld : {A : Type 0} (s : A) → IsHeld (record { alloc = s; mem = in_use.mem }) 0x1000 five
in_use-IsHeld s = record {
  layout = five-IsLayout;
  nonempty = omega arith;
  nonnull = omega arith;
  small = omega arith;
  mapped = λ a x y. ground arith;
}

in_use-Ready : Ready (inner in_use)
in_use-Ready = record { low = omega arith; high = omega arith; mapped = λ a x y. ground arith }

in_use-Live : Live (inner in_use) 0x1000 five
in_use-Live = record { held = in_use-IsHeld 0x1005; below = omega arith }

dealloc-WipesFirst_example :
    WipesFirst 0x1000 five in_use (bump.dealloc 0x1000 five) (dealloc bump 0x1000 five in_use)
dealloc-WipesFirst_example =
    dealloc-WipesFirst bump in_use 0x1000 five (in_use-IsHeld (record { backend_alloc = 0x1005 }))

dealloc_aborts_example : dealloc bump 0 five in_use ≡ fault abort
dealloc_aborts_example = dealloc_aborts bump in_use 0 five (inl refl)

-- A backend that never has memory.
abbrev exhausted : Allocator ℕ
exhausted = record {
  allocate = λ l. pure (err alloc_error);
  allocate_zeroed = λ l. pure (err alloc_error);
  deallocate = λ p l. pure tt;
}

deallocate-WipesFirst_example :
    WipesFirst 0x1000 five in_use
      (exhausted.deallocate 0x1000 five)
      (deallocate exhausted 0x1000 five in_use)
deallocate-WipesFirst_example =
    deallocate-WipesFirst exhausted in_use 0x1000 five five-IsLayout (λ a x y. ground arith)

zeroizing-IsGlobalAlloc_example :
    IsGlobalAlloc (λ w. Ready (inner w)) (λ w. Live (inner w)) (zeroizing bump)
zeroizing-IsGlobalAlloc_example = zeroizing-IsGlobalAlloc Ready Live bump bump-IsGlobalAlloc

-- `realloc` as `core` has it.
abbrev copying : {A : Type 0} → GlobalAlloc A → ℕ → Layout → ℕ → ℕ → M (World A) ℕ
copying self ptr layout new_size new_ptr =
    if new_ptr == 0 then pure new_ptr else moves self ptr layout new_size new_ptr

abbrev realloc : {A : Type 0} → GlobalAlloc A → ℕ → Layout → ℕ → M (World A) ℕ
realloc self ptr layout new_size =
    self.alloc (record { size = new_size; align = layout.align })
    >>= copying self ptr layout new_size

realloc-IsProvidedRealloc : {A : Type 0} → IsProvidedRealloc (realloc {A = A})
realloc-IsProvidedRealloc = record {
  refused = λ self ptr layout new_size w w' ran. rw ran refl;
  moved =
      λ self ptr layout new_size new_ptr w w' nonnull ran. rw (ran, pos→== new_ptr nonnull) refl;
}

realloc_wipes_example :
    Reallocates
      (λ w. Ready (inner w))
      (λ w. Live (inner w))
      0x1000
      five
      (record { size = 9; align = 1 })
      in_use
      (realloc (zeroizing bump) 0x1000 five 9 in_use)
    × ((r : ℕ) × (w' : World (ZeroizeAlloc ℕ)) × (realloc (zeroizing bump) 0x1000 five 9 in_use
          ≡ done (r, w'))
        × ((r ≡ 0)
            ⊎ ((v : Bump) × ((a : ℕ) → 0x1000 ≤ a → a < 0x1000 + 5 → v.mem a ≡ some 0)
                × (bump.dealloc 0x1000 five v ≡ done (tt, inner w')))))
realloc_wipes_example =
    realloc_wipes Ready Live bump bump-IsGlobalAlloc realloc realloc-IsProvidedRealloc in_use 0x1000
      five 9 in_use-Ready in_use-Live
      (record { power = (0, omega arith, refl); fits = omega arith }) (omega arith)
