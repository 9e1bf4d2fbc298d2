-- ===== src/ZeroizingAlloc.antt =====
-- src/zeroizing_alloc.rs: a wrapper around any allocator. The backend is a parameter; the model is
-- that of a debug build, in which a failed check ends in `handle_alloc_error`, an abort.
pub mod Contract
pub mod Realloc
pub mod Resize
pub mod Wiped
pub mod Refine
pub mod Allocates
pub mod OverPage
pub mod Discreet
pub mod Secrets
use secmem_alloc.Base.{
  ℕ, ◌+◌, Bool, true, false, not, ltb, leb, ◌==◌, if◌then◌else◌, M, Outcome, done, fault, ◌>>=◌,
  ◌>>◌, pure, throw, abort, Result, ok, err, usize_mod,
}
use secmem_alloc.Memory.{World, copy_nonoverlapping}
use secmem_alloc.Util.{Slice}
use secmem_alloc.Zeroize.{zeroize_mem}
use secmem_alloc.Traits.{GlobalAlloc, Allocator}
use secmem_alloc.Layout.{Layout, AllocError, from_size_align}

pub record ZeroizeAlloc (A : Type 0) : Type 0 where
  pub backend_alloc : A

unfoldable pub new : {A : Type 0} → A → ZeroizeAlloc A
new backend_alloc = record { backend_alloc = backend_alloc }

-- The state that a call on `self.backend_alloc` sees, and its effect on that of the wrapper.
abbrev pub inner : {A : Type 0} → World (ZeroizeAlloc A) → World A
inner w = record { alloc = w.alloc.backend_alloc; mem = w.mem }

abbrev pub outer : {A : Type 0} → World A → World (ZeroizeAlloc A)
outer w = record { alloc = record { backend_alloc = w.alloc }; mem = w.mem }

abbrev pub rewrap : {A B : Type 0} → Outcome (B × World A) → Outcome (B × World (ZeroizeAlloc A))
rewrap (done (r, w)) = done (r, outer w)
rewrap (fault e) = fault e

abbrev pub on_backend : {A B : Type 0} → M (World A) B → M (World (ZeroizeAlloc A)) B
on_backend call w = rewrap (call (inner w))

-- `debug_handleallocerror_precondition!`, and the test for an end past the address space, which
-- `dealloc` has written out
unfoldable pub debug_handleallocerror_precondition : {S : Type 0} → Bool → M S (Unit {0})
debug_handleallocerror_precondition condition = if condition then pure tt else throw abort

abbrev pub is_ok : {A E : Type 0} → Result A E → Bool
is_ok (ok a) = true
is_ok (err e) = false

-- `debug_handleallocerror_precondition_valid_layout!`
unfoldable pub debug_handleallocerror_precondition_valid_layout :
    {S : Type 0} → Layout → M S (Unit {0})
unfolding from_size_align
debug_handleallocerror_precondition_valid_layout layout =
    if is_ok (from_size_align layout.size layout.align) then pure tt else throw abort

module _ {A : Type 0} (backend : GlobalAlloc A) where
  unfoldable pub alloc : Layout → M (World (ZeroizeAlloc A)) ℕ
  alloc layout = do
    debug_handleallocerror_precondition_valid_layout layout
    debug_handleallocerror_precondition (not (layout.size == 0))
    on_backend (backend.alloc layout)

  unfoldable pub dealloc : ℕ → Layout → M (World (ZeroizeAlloc A)) (Unit {0})
  dealloc ptr layout = do
    debug_handleallocerror_precondition (not (ptr == 0))
    debug_handleallocerror_precondition_valid_layout layout
    debug_handleallocerror_precondition (not (layout.size == 0))
    debug_handleallocerror_precondition (ltb (ptr + layout.size) usize_mod)
    zeroize_mem ptr layout.size
    on_backend (backend.dealloc ptr layout)

  unfoldable pub alloc_zeroed : Layout → M (World (ZeroizeAlloc A)) ℕ
  alloc_zeroed layout = do
    debug_handleallocerror_precondition_valid_layout layout
    debug_handleallocerror_precondition (not (layout.size == 0))
    on_backend (backend.alloc_zeroed layout)

module _ {A : Type 0} (backend : Allocator A) where
  unfoldable pub allocate : Layout → M (World (ZeroizeAlloc A)) (Result Slice AllocError)
  allocate layout = do
    debug_handleallocerror_precondition_valid_layout layout
    on_backend (backend.allocate layout)

  unfoldable pub allocate_zeroed : Layout → M (World (ZeroizeAlloc A)) (Result Slice AllocError)
  allocate_zeroed layout = do
    debug_handleallocerror_precondition_valid_layout layout
    on_backend (backend.allocate_zeroed layout)

  unfoldable pub deallocate : ℕ → Layout → M (World (ZeroizeAlloc A)) (Unit {0})
  deallocate ptr layout = do
    debug_handleallocerror_precondition_valid_layout layout
    zeroize_mem ptr layout.size
    on_backend (backend.deallocate ptr layout)

-- The wrapper as a `GlobalAlloc`.
abbrev pub zeroizing : {A : Type 0} → GlobalAlloc A → GlobalAlloc (ZeroizeAlloc A)
zeroizing backend = record {
  alloc = alloc backend;
  dealloc = dealloc backend;
  alloc_zeroed = alloc_zeroed backend;
}

-- The wrapper as an `Allocator`.
abbrev pub zeroizing_allocator : {A : Type 0} → Allocator A → Allocator (ZeroizeAlloc A)
zeroizing_allocator backend = record {
  allocate = allocate backend;
  allocate_zeroed = allocate_zeroed backend;
  deallocate = deallocate backend;
}
