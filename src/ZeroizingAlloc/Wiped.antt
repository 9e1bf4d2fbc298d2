-- ===== src/ZeroizingAlloc/Wiped.antt =====
-- The checks of src/zeroizing_alloc.rs, and the state in which the backend gets a block back.
use secmem_alloc.Base.{
  ℕ, ◌+◌, ◌^◌, ◌≤◌, ◌<◌, ◌≡◌, ◌⊎◌, inl, inr, refl, Bool-cases, lt→leb, le→ltb, Bool, true, false,
  not, ltb, if◌then◌else◌, pure, throw, ◌>>◌, some, arith, Outcome, done, fault, abort, usize_mod,
  ◌==◌, M, is_power_of_two, ap,
}
use secmem_alloc.Memory.{Memory, World, is_mapped, fill}
use secmem_alloc.Memory.Ranges.{fill-inside, fill-outside}
use secmem_alloc.Zeroize.Wipe.{zeroize_mem-done}
use secmem_alloc.Traits.{Allocator, GlobalAlloc}
use secmem_alloc.Layout.{Layout, IsLayout, from_size_align, from_size_align-ok}
use secmem_alloc.ZeroizingAlloc.{
  is_ok, ZeroizeAlloc, inner, rewrap, on_backend, debug_handleallocerror_precondition,
  debug_handleallocerror_precondition_valid_layout, dealloc, deallocate,
}
use secmem_alloc.ZeroizingAlloc.Contract.{IsHeld}

pub valid_layout-done :
    {S : Type 0} (l : Layout) (s : S)
    → IsLayout l
    → debug_handleallocerror_precondition_valid_layout l s ≡ done (tt, s)
unfolding debug_handleallocerror_precondition_valid_layout
valid_layout-done l s lay = rw (from_size_align-ok l lay) refl

-- The checks of `dealloc` in their order: if one fails, the call aborts.
checks-abort :
    {S A : Type 0} (nonnull valid nonempty small : Bool) (rest : M S A) (s : S)
    → (nonnull ≡ false) ⊎ ((valid ≡ false) ⊎ ((nonempty ≡ false) ⊎ (small ≡ false)))
    → (debug_handleallocerror_precondition nonnull
          >> ((if valid then pure tt else throw abort)
              >> (debug_handleallocerror_precondition nonempty
                  >> (debug_handleallocerror_precondition small >> rest))))
        s
      ≡ fault abort
unfolding debug_handleallocerror_precondition
checks-abort false valid nonempty small rest s e = refl
checks-abort true false nonempty small rest s e = refl
checks-abort true true false small rest s e = refl
checks-abort true true true false rest s e = refl
checks-abort true true true true rest s e = ground arith

too_large :
    (l : Layout) → 2 ^ 63 < l.size + l.align → is_ok (from_size_align l.size l.align) ≡ false
unfolding from_size_align
too_large l h = elim (Bool-cases (is_power_of_two l.align)) [
  | inl e ↦ rw (e, lt→leb (l.size + l.align) (2 ^ 63) h) refl
  | inr e ↦ rw e refl
]

failed_check :
    (ptr : ℕ) (l : Layout)
    → (ptr ≡ 0) ⊎ ((l.size ≡ 0) ⊎ ((2 ^ 63 < l.size + l.align) ⊎ (usize_mod ≤ ptr + l.size)))
    → (not (ptr == 0) ≡ false)
      ⊎ ((is_ok (from_size_align l.size l.align) ≡ false)
          ⊎ ((not (l.size == 0) ≡ false) ⊎ (ltb (ptr + l.size) usize_mod ≡ false)))
failed_check ptr l (inl e) = inl (rw e refl)
failed_check ptr l (inr (inl e)) = inr (inr (inl (rw e refl)))
failed_check ptr l (inr (inr (inl h))) = inr (inl (too_large l h))
failed_check ptr l (inr (inr (inr h))) = inr (inr (inr (le→ltb (ptr + l.size) usize_mod h)))

module _ {A : Type 0} where
  abbrev unwrapped : {B : Type 0} → Outcome (B × World (ZeroizeAlloc A)) → Outcome (B × World A)
  unwrapped (done (u, w)) = done (u, inner w)
  unwrapped (fault f) = fault f

  -- What the wrapper returned, its backend did.
  pub rewrap_inj :
      {B : Type 0} {b : B} (o : Outcome (B × World A)) (w' : World (ZeroizeAlloc A))
      → rewrap o ≡ done (b, w')
      → o ≡ done (b, inner w')
  rewrap_inj (done (u, w)) w' e = ap unwrapped e
  rewrap_inj (fault f) w' e = ap unwrapped e

  -- The outcome is that of the call on a memory in which all bytes of the block are 0, and all
  -- others are as they were.
  abbrev pub WipesFirst :
      ℕ
      → Layout
      → World (ZeroizeAlloc A)
      → M (World A) (Unit {0})
      → Outcome (Unit {0} × World (ZeroizeAlloc A))
      → Type 0
  WipesFirst ptr l w call o =
      (m : Memory) × (o ≡ on_backend call (record w { mem = m }))
      × ((a : ℕ) → ptr ≤ a → a < ptr + l.size → m a ≡ some 0)
      × ((a : ℕ) → (a < ptr) ⊎ (ptr + l.size ≤ a) → m a ≡ w.mem a)

  module _ (backend : GlobalAlloc A) (w : World (ZeroizeAlloc A)) (ptr : ℕ) (l : Layout) where
    pub dealloc-eq :
        IsHeld w ptr l
        → dealloc backend ptr l w
          ≡ on_backend (backend.dealloc ptr l) (record w { mem = fill w.mem ptr 0 l.size })
    unfolding dealloc debug_handleallocerror_precondition
    dealloc-eq h = ground (
      arith,
      h.layout,
      h.nonempty,
      h.nonnull,
      h.small,
      valid_layout-done l w,
      zeroize_mem-done ptr l.size w h.mapped,
    )

    -- `dealloc` of a block that its owner holds passes all checks, and calls `dealloc` of the
    -- backend on a memory in which the whole block is 0 and no other byte has changed.
    pub dealloc-WipesFirst :
        IsHeld w ptr l → WipesFirst ptr l w (backend.dealloc ptr l) (dealloc backend ptr l w)
    dealloc-WipesFirst h = (
      fill w.mem ptr 0 l.size,
      dealloc-eq h,
      fill-inside w.mem ptr 0 l.size,
      fill-outside w.mem ptr 0 l.size,
    )

    -- On a null pointer, an empty layout, a layout larger than `isize::MAX`, or a block that
    -- would reach past the end of the address space, `dealloc` aborts, whatever the backend.
    pub dealloc_aborts :
        (ptr ≡ 0) ⊎ ((l.size ≡ 0) ⊎ ((2 ^ 63 < l.size + l.align) ⊎ (usize_mod ≤ ptr + l.size)))
        → dealloc backend ptr l w ≡ fault abort
    unfolding dealloc debug_handleallocerror_precondition_valid_layout
    dealloc_aborts h =
        checks-abort (not (ptr == 0)) (is_ok (from_size_align l.size l.align)) (not (l.size == 0))
          (ltb (ptr + l.size) usize_mod) _ w (failed_check ptr l h)

  -- For a valid layout and a block that is mapped, `deallocate` passes the check, and calls
  -- `deallocate` of the backend on a memory in which the whole block is 0 and no other byte has
  -- changed.
  pub deallocate-WipesFirst :
      (backend : Allocator A) (w : World (ZeroizeAlloc A)) (ptr : ℕ) (l : Layout)
      → IsLayout l
      → ((a : ℕ) → ptr ≤ a → a < ptr + l.size → is_mapped (w.mem a) ≡ true)
      → WipesFirst ptr l w (backend.deallocate ptr l) (deallocate backend ptr l w)
  unfolding deallocate
  deallocate-WipesFirst backend w ptr l lay mapped = (
    fill w.mem ptr 0 l.size,
    rw (valid_layout-done l w lay, zeroize_mem-done ptr l.size w mapped) refl,
    fill-inside w.mem ptr 0 l.size,
    fill-outside w.mem ptr 0 l.size,
  )
