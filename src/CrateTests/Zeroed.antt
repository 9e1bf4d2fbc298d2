-- ===== src/CrateTests/Zeroed.antt =====
-- What the test on `allocate_zeroed` of src/sec_alloc.rs does.
use secmem_alloc.Base.{
  ℕ, zero, suc, ◌+◌, ◌≤◌, ◌<◌, ◌≡◌, refl, some, [], ◌∷◌, arith, done, ok, usize_mod,
}
use secmem_alloc.Memory.{World}
use secmem_alloc.Memory.Ranges.{read-done, ptr_add-done}
use secmem_alloc.Layout.{Layout, IsLayout}
use secmem_alloc.SecAlloc.{Sec, allocate}
use secmem_alloc.SecAlloc.Blocks.{Block}
use secmem_alloc.SecAlloc.Invariant.{Inv, stack_top}
use secmem_alloc.SecAlloc.Allocate.{block_addr, claimed, slice}
use secmem_alloc.SecAlloc.Deallocate.{IsBlock-bounds, freed, deallocate-eq}
use secmem_alloc.SecAlloc.Client.{Reach, next, allocates, deallocates}
use secmem_alloc.SecAlloc.Client.Safety.{Reach-Inv}
use secmem_alloc.CrateTests.{assert_zeros, zeroed_allocation}
use secmem_alloc.CrateTests.Steps.{Ends, At, allocate_small}
use secmem_alloc.CrateTests.BoxTests.{bytes-IsLayout}

-- The loop passes over bytes that are 0.
pub assert_zeros-done :
    {A : Type 0} (ptr left i : ℕ) (w : World A)
    → ptr + i + left < usize_mod
    → ((a : ℕ) → ptr + i ≤ a → a < ptr + i + left → w.mem a ≡ some 0)
    → assert_zeros ptr left i w ≡ done (tt, w)
unfolding assert_zeros
assert_zeros-done ptr zero i w small zeros = refl
assert_zeros-done ptr (suc left) i w small zeros =
    rw
      (
        ptr_add-done ptr i w (omega arith),
        read-done (ptr + i) 0 w (zeros (ptr + i) (omega arith) (omega arith)),
      )
      (assert_zeros-done ptr left (i + 1) w (omega arith)
        (λ a h k. zeros a (omega arith) (omega arith)))

module _ (w : Sec) (start : Inv [] w) (large : 2048 ≤ w.alloc.page.page_size) where
  pub zeroed-Ends :
      Ends
        (At w [] 0)
        zeroed_allocation
        (λ u s. Reach (record { live = []; world = w }) (record { live = []; world = s }))
  unfolding zeroed_allocation allocate
  zeroed-Ends s at =
      let l : Layout = record { size = 16; align = 1 } in
      let lay : IsLayout l = bytes-IsLayout 0 16 (omega arith) in
      let p : ℕ = block_addr (stack_top s) 1 in
      let s' : Sec = claimed s p 16 in
      let b : Block = record { addr = p; size = 16 } in
      let ran : allocate l s ≡ done (ok (slice p 16), s') =
        allocate_small w start large s l at lay (omega arith) (omega arith) in
      let reach : Reach (record { live = []; world = w }) (record { live = b ∷ []; world = s' }) =
        next at.0 (allocates l (ok (slice p 16), s') lay ran refl) in
      let inv : Inv (b ∷ []) s' = Reach-Inv start reach in
      let freed_run = deallocate-eq [] [] b inv l (omega arith, refl) in
      (
        tt,
        freed s' b,
        rw
            (
              ran,
              assert_zeros-done p 16 0 s'
                  (omega (arith, IsBlock-bounds [] [] b inv, inv.page, inv.offset_in_page))
                  (λ a h k.
                    (Reach-Inv start at.0).zeroed a
                      (omega (arith, IsBlock-bounds [] [] b inv, inv.offset_in_page)) tt),
            )
            freed_run,
        next reach (deallocates [] b [] l (freed s' b) (refl, (omega arith, refl)) freed_run refl),
      )
