-- ===== src/Page/Miri.antt =====
-- src/internals/mem/miri.rs: the shim over the system allocator, whose calls are a parameter.
use secmem_alloc.Base.{
  Option, some, ℕ, ◌≡◌, ◌⊎◌, inl, inr, refl, ◌==◌, pos→==, arith, if◌then◌else◌, M, ◌>>=◌, ◌>>◌,
  pure, throw, done, panic, Result, ok, err, is_power_of_two,
}
use secmem_alloc.Memory.{World, new_unchecked}
use secmem_alloc.Memory.Ranges.{new_unchecked-done}
use secmem_alloc.Layout.{Layout, from_size_align}
use secmem_alloc.Page.{Page, as_ptr_mut, page_size}
use secmem_alloc.Page.Source.{
  GivesHeld, GivesHeld-GivesPage, IsMapped, Unmapped, Mapped, Mapped-eight, GivesPage, PageSource,
}

-- `std::alloc`: `alloc_zeroed` returns 0 where it fails. `K` is what the allocator keeps; it knows the
-- layout with which an address was allocated.
pub record StdAlloc (K : Type 0) : Type 0 where
  pub alloc_zeroed : Layout → M (World K) ℕ
  pub dealloc : ℕ → Layout → M (World K) (Unit {0})
  pub allocated : K → ℕ → Option Layout

pub data PageAllocError : Type 0 where
  layout_error alloc_error lock_error : PageAllocError

abbrev pub shim_page_size : ℕ
shim_page_size = 4096

module _ {K : Type 0} (sys : StdAlloc K) where
  -- What follows the `?` on the layout in `alloc_new`.
  unfoldable pub alloc_with : Result Layout (Unit {0}) → M (World K) (Result Page PageAllocError)
  alloc_with (err u) = pure (err layout_error)
  alloc_with (ok layout) = do
    page_ptr ← sys.alloc_zeroed layout
    if page_ptr == 0 then pure (err alloc_error) else do
      ptr ← new_unchecked page_ptr
      pure (ok (record { page_ptr = ptr; page_size = shim_page_size }))

  unfoldable pub alloc_new : M (World K) (Result Page PageAllocError)
  alloc_new = alloc_with (from_size_align shim_page_size shim_page_size)

  -- The result of the shim is always 0.
  unfoldable pub mlock : Page → M (World K) (Result (Unit {0}) PageAllocError)
  mlock page = let res : ℕ = 0 in if res == 0 then pure (ok tt) else pure (err lock_error)

  -- the release in `drop`, with the layout unwrapped
  unfoldable pub dealloc_with : ℕ → Result Layout (Unit {0}) → M (World K) (Unit {0})
  dealloc_with ptr (ok layout) = sys.dealloc ptr layout
  dealloc_with ptr (err u) = throw panic

  unfoldable pub drop : Page → M (World K) (Unit {0})
  drop page = dealloc_with (as_ptr_mut page) (from_size_align (page_size page) (page_size page))

  -- What follows `page.mlock()`: an early return drops the page.
  unfoldable pub locked_page :
      Page → Result (Unit {0}) PageAllocError → M (World K) (Result Page PageAllocError)
  locked_page page (ok u) = pure (ok page)
  locked_page page (err e) = do drop page; pure (err e)

  unfoldable pub lock_page : Result Page PageAllocError → M (World K) (Result Page PageAllocError)
  lock_page (err e) = pure (err e)
  lock_page (ok page) = do result ← mlock page; locked_page page result

  unfoldable pub alloc_new_lock : M (World K) (Result Page PageAllocError)
  alloc_new_lock = do page ← alloc_new; lock_page page

-- The one layout that is used.
abbrev pub page_layout : Layout
page_layout = record { size = shim_page_size; align = shim_page_size }

-- What `std` promises for this layout. `alloc_zeroed` returns memory that was not in use, aligned as
-- asked and zeroed, or a null pointer with no memory changed; and memory that was allocated can be
-- given back, and is not in use then.
pub record IsStdAlloc {K : Type 0} (sys : StdAlloc K) : Type 0 where
  pub alloc_maps :
      (w : World K)
      → let o = sys.alloc_zeroed page_layout w in
        ((p : ℕ) × (w' : World K) × (o ≡ done (p, w'))
          × Mapped shim_page_size p shim_page_size w.mem w'.mem
          × (sys.allocated w'.alloc p ≡ some page_layout))
        ⊎ ((w' : World K) × (o ≡ done (0, w')) × (w'.mem ≡ w.mem))
  pub dealloc_unmaps :
      (p : ℕ) (w : World K)
      → sys.allocated w.alloc p ≡ some page_layout
      → (w' : World K) × (sys.dealloc p page_layout w ≡ done (tt, w'))
        × Unmapped p shim_page_size w.mem w'.mem

module _ {K : Type 0} (sys : StdAlloc K) (laws : IsStdAlloc sys) where
  -- The allocator has given out the page.
  abbrev pub IsHeld : K → Page → Type 0
  IsHeld k page =
      (sys.allocated k page.page_ptr ≡ some page_layout) × (page.page_size ≡ shim_page_size)

  pub gives_held : (w : World K) → GivesHeld IsHeld w (alloc_new_lock sys w)
  unfolding alloc_new_lock alloc_new alloc_with from_size_align is_power_of_two lock_page mlock
      locked_page
  gives_held w = elim (laws.alloc_maps w) [
    | inl (p, w1, e, up, held) ↦ inl (
      record { page_ptr = p; page_size = shim_page_size },
      w1,
      rw (e, pos→== p up.nonnull, new_unchecked-done p w1 up.nonnull),
      Mapped-eight (12, omega arith, refl) (omega arith) up,
      (held, refl),
    )
    | inr (w1, e, same) ↦ inr (alloc_error, w1, rw e, same)
  ]

  -- Over a system allocator that does what is documented, the shim `alloc_new_lock` returns a
  -- page of zeros at addresses that were free, or an error with the memory as it was.
  pub miri_alloc_new_lock-GivesPage : (w : World K) → GivesPage w (alloc_new_lock sys w)
  miri_alloc_new_lock-GivesPage w =
      GivesHeld-GivesPage IsHeld w (alloc_new_lock sys w) (gives_held w)

  dropped :
      (w : World K) (page : Page)
      → page.page_size ≡ shim_page_size
      → ((w' : World K) × (sys.dealloc page.page_ptr page_layout w ≡ done (tt, w'))
          × Unmapped page.page_ptr shim_page_size w.mem w'.mem)
      → (w' : World K) × (drop sys page w ≡ done (tt, w'))
        × Unmapped page.page_ptr page.page_size w.mem w'.mem
  unfolding drop dealloc_with from_size_align is_power_of_two as_ptr_mut page_size
  dropped w page size (w', ran, down) = (w', rw (size, ran) refl, rw size down)

  pub releases :
      (w : World K) (page : Page)
      → IsHeld w.alloc page
      → IsMapped page w.mem
      → (w' : World K) × (drop sys page w ≡ done (tt, w'))
        × Unmapped page.page_ptr page.page_size w.mem w'.mem
  releases w page held mapped = dropped w page held.1 (laws.dealloc_unmaps page.page_ptr w held.0)

  abbrev pub source : PageSource K PageAllocError
  source = record {
    alloc_new_lock = alloc_new_lock sys;
    drop = drop sys;
    Held = IsHeld;
    gives_page = gives_held;
    releases = releases;
  }
