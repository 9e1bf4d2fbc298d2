-- ===== src/Page/Unix.antt =====
-- src/internals/mem/unix.rs over `rustix`, whose calls are a parameter.
use mathlib.Core.Path.{subst}
use secmem_alloc.Base.{
  arith, refl, ℕ, ◌%◌, ◌≤◌, ◌≡◌, ◌⊎◌, inl, inr, sym, IsPowerOfTwo, Bool, true, false, M, ◌>>=◌,
  ◌>>◌, pure, throw, done, panic, Result, ok, err,
}
use secmem_alloc.Memory.{World, is_mapped, new_unchecked}
use secmem_alloc.Memory.Ranges.{new_unchecked-done}
use secmem_alloc.Page.{Page, as_ptr_mut, page_size}
use secmem_alloc.Page.Source.{
  GivesHeld, IsMapped, InRange, Mapped, Mapped-eight, Unmapped, Unmapped-Mapped, GivesPage,
  PageSource,
}

pub record ProtFlags : Type 0 where
  pub read : Bool
  pub write : Bool

pub record MapFlags : Type 0 where
  pub private_map : Bool
  pub noreserve : Bool
  pub nocore : Bool

-- What `cfg_if!` tells apart: `redox`; `freebsd` and `dragonfly`; any other.
pub data TargetOs : Type 0 where
  redox freebsd other : TargetOs

-- The calls of `rustix`. `K` is what the system keeps, besides the memory of the process.
pub record Rustix (K Errno : Type 0) : Type 0 where
  pub param_page_size : ℕ
  pub mmap_anonymous : ℕ → ℕ → ProtFlags → MapFlags → M (World K) (Result ℕ Errno)
  pub mlock : ℕ → ℕ → M (World K) (Result (Unit {0}) Errno)
  pub munmap : ℕ → ℕ → M (World K) (Result (Unit {0}) Errno)

pub data PageAllocError (Errno : Type 0) : Type 0 where
  mmap_error : Errno → PageAllocError Errno
  mlock_error : Errno → PageAllocError Errno

-- The flags that the crate passes on each target.
unfoldable pub map_flags : TargetOs → MapFlags
map_flags redox = record { private_map = true; noreserve = false; nocore = false }
map_flags freebsd = record { private_map = true; noreserve = false; nocore = true }
map_flags other = record { private_map = true; noreserve = true; nocore = false }

abbrev pub prot_flags : ProtFlags
prot_flags = record { read = true; write = true }

module _ {K Errno : Type 0} (sys : Rustix K Errno) (os : TargetOs) where
  -- the address that `mmap` returned, as a page
  unfoldable pub mapped_page : Result ℕ Errno → M (World K) (Result Page Errno)
  mapped_page (err e) = pure (err e)
  mapped_page (ok page_ptr) = do
    ptr ← new_unchecked page_ptr
    pure (ok (record { page_ptr = ptr; page_size = sys.param_page_size }))

  unfoldable pub alloc_new_noreserve : M (World K) (Result Page Errno)
  alloc_new_noreserve = do
    page_ptr ← sys.mmap_anonymous 0 sys.param_page_size prot_flags (map_flags os)
    mapped_page page_ptr

  unfoldable pub mlock : Page → M (World K) (Result (Unit {0}) Errno)
  mlock page = sys.mlock (as_ptr_mut page) (page_size page)

  -- `unwrap` of a result
  unfoldable pub unwrap : Result (Unit {0}) Errno → M (World K) (Unit {0})
  unwrap (ok u) = pure u
  unwrap (err e) = throw panic

  unfoldable pub drop : Page → M (World K) (Unit {0})
  drop page = do result ← sys.munmap (as_ptr_mut page) (page_size page); unwrap result

  -- What follows `page.mlock()`: an early return drops the page.
  unfoldable pub locked_page :
      Page → Result (Unit {0}) Errno → M (World K) (Result Page (PageAllocError Errno))
  locked_page page (ok u) = pure (ok page)
  locked_page page (err e) = do drop page; pure (err (mlock_error e))

  unfoldable pub lock_page : Result Page Errno → M (World K) (Result Page (PageAllocError Errno))
  lock_page (err e) = pure (err (mmap_error e))
  lock_page (ok page) = do result ← mlock page; locked_page page result

  unfoldable pub alloc_new_lock : M (World K) (Result Page (PageAllocError Errno))
  alloc_new_lock = do page ← alloc_new_noreserve; lock_page page

-- What the manual pages promise of these calls. The page size is a power of two, and not tiny. A
-- successful `mmap` returns free addresses, from a multiple of the page size on, that
-- read as zeros from then on; a call that fails changes no memory;
-- `mlock` changes no memory; and `munmap` of a page that is mapped succeeds.
pub record IsRustix {K Errno : Type 0} (sys : Rustix K Errno) : Type 0 where
  pub page_power : IsPowerOfTwo sys.param_page_size
  pub page_large : 8 ≤ sys.param_page_size
  pub mmap_maps :
      (flags : MapFlags) (w : World K)
      → let o = sys.mmap_anonymous 0 sys.param_page_size prot_flags flags w in
        ((p : ℕ) × (w' : World K) × (o ≡ done (ok p, w'))
          × Mapped sys.param_page_size p sys.param_page_size w.mem w'.mem)
        ⊎ ((e : Errno) × (w' : World K) × (o ≡ done (err e, w')) × (w'.mem ≡ w.mem))
  pub mlock_keeps :
      (p len : ℕ) (w : World K)
      → ((w' : World K) × (sys.mlock p len w ≡ done (ok tt, w')) × (w'.mem ≡ w.mem))
        ⊎ ((e : Errno) × (w' : World K) × (sys.mlock p len w ≡ done (err e, w')) × (w'.mem ≡ w.mem))
  pub munmap_unmaps :
      (p : ℕ) (w : World K)
      → p % sys.param_page_size ≡ 0
      → ((a : ℕ) → InRange p sys.param_page_size a → is_mapped (w.mem a) ≡ true)
      → (w' : World K) × (sys.munmap p sys.param_page_size w ≡ done (ok tt, w'))
        × Unmapped p sys.param_page_size w.mem w'.mem

module _ {K Errno : Type 0} (sys : Rustix K Errno) (laws : IsRustix sys) (os : TargetOs) where
  -- A page is given out as `mmap` returned it.
  pub alloc_new_lock_lem :
      (w : World K)
      → ((p : ℕ) × (w' : World K) × (alloc_new_lock sys os w
            ≡ done (ok (record { page_ptr = p; page_size = sys.param_page_size }), w'))
          × Mapped sys.param_page_size p sys.param_page_size w.mem w'.mem)
        ⊎ ((e : PageAllocError Errno) × (w' : World K) × (alloc_new_lock sys os w
              ≡ done (err e, w'))
            × (w'.mem ≡ w.mem))
  unfolding alloc_new_lock alloc_new_noreserve mapped_page lock_page mlock locked_page drop unwrap
      as_ptr_mut page_size
  alloc_new_lock_lem w = elim (laws.mmap_maps (map_flags os) w) [
    | inl (p, w1, e, up) ↦ elim (laws.mlock_keeps p sys.param_page_size w1) [
      | inl (w2, e2, same) ↦ inl (
        p,
        w2,
        rw (e, new_unchecked-done p w1 up.nonnull, e2) refl,
        subst (λ m. Mapped sys.param_page_size p sys.param_page_size w.mem m) (sym same) up,
      )
      | inr (errno, w2, e2, same) ↦
          let (w3, e3, down) =
            laws.munmap_unmaps p w2 up.aligned (λ a i. rw (same, up.zeroed a i) refl) in
          inr (
            mlock_error errno,
            w3,
            rw (e, new_unchecked-done p w1 up.nonnull, e2, e3) refl,
            Unmapped-Mapped up (subst (λ m. Unmapped p sys.param_page_size m w3.mem) same down),
          )
    ]
    | inr (errno, w1, e, same) ↦ inr (mmap_error errno, w1, rw e refl, same)
  ]

  -- Over `mmap`, `mlock` and `munmap` that do what is documented, `alloc_new_lock` returns a
  -- page of zeros at addresses that were free, or an error; and after an error, of `mlock` too,
  -- the memory is as it was before the call.
  pub unix_alloc_new_lock-GivesPage : (w : World K) → GivesPage w (alloc_new_lock sys os w)
  unix_alloc_new_lock-GivesPage w = elim (alloc_new_lock_lem w) [
    | inl (p, w', e, up) ↦ inl (
      record { page_ptr = p; page_size = sys.param_page_size },
      w',
      e,
      Mapped-eight laws.page_power laws.page_large up,
    )
    | inr failed ↦ inr failed
  ]

  -- The system has given out the page: it has the size of a page, and starts at a multiple of it.
  abbrev pub IsHeld : K → Page → Type 0
  IsHeld k page = (page.page_size ≡ sys.param_page_size) × (page.page_ptr % sys.param_page_size ≡ 0)

  pub gives_held : (w : World K) → GivesHeld IsHeld w (alloc_new_lock sys os w)
  gives_held w = elim (alloc_new_lock_lem w) [
    | inl (p, w', e, up) ↦ inl (
      record { page_ptr = p; page_size = sys.param_page_size },
      w',
      e,
      Mapped-eight laws.page_power laws.page_large up,
      (refl, up.aligned),
    )
    | inr failed ↦ inr failed
  ]

  dropped :
      (w : World K) (page : Page)
      → page.page_size ≡ sys.param_page_size
      → ((w' : World K) × (sys.munmap page.page_ptr sys.param_page_size w ≡ done (ok tt, w'))
          × Unmapped page.page_ptr sys.param_page_size w.mem w'.mem)
      → (w' : World K) × (drop sys os page w ≡ done (tt, w'))
        × Unmapped page.page_ptr page.page_size w.mem w'.mem
  unfolding drop unwrap as_ptr_mut page_size
  dropped w page size (w', ran, down) = (w', rw (size, ran) refl, rw size down)

  pub releases :
      (w : World K) (page : Page)
      → IsHeld w.alloc page
      → IsMapped page w.mem
      → (w' : World K) × (drop sys os page w ≡ done (tt, w'))
        × Unmapped page.page_ptr page.page_size w.mem w'.mem
  releases w page held mapped =
      dropped w page held.0
        (laws.munmap_unmaps page.page_ptr w held.1 (λ a i. mapped a (omega (arith, held.0))))

  abbrev pub source : PageSource K (PageAllocError Errno)
  source = record {
    alloc_new_lock = alloc_new_lock sys os;
    drop = drop sys os;
    Held = IsHeld;
    gives_page = gives_held;
    releases = releases;
  }
