-- ===== src/Page/Windows.antt =====
-- src/internals/mem/windows.rs over the `windows` crate, whose calls are a parameter.
use mathlib.Core.Path.{subst}
use secmem_alloc.Base.{
  ℕ, ◌≤◌, ◌≡◌, ◌⊎◌, inl, inr, refl, sym, ◌∙◌, IsPowerOfTwo, ◌==◌, pos→==, Option, some,
  if◌then◌else◌, M, ◌>>=◌, ◌>>◌, pure, throw, done, panic, Result, ok, err,
}
use secmem_alloc.Memory.{World, new_unchecked}
use secmem_alloc.Memory.Ranges.{new_unchecked-done}
use secmem_alloc.Page.{Page, as_ptr_mut, page_size}
use secmem_alloc.Page.Source.{
  GivesHeld, GivesHeld-GivesPage, IsMapped, Mapped, Mapped-eight, Unmapped, Unmapped-Mapped,
  GivesPage, PageSource,
}

-- `SYSTEM_INFO`, of which the crate reads one field.
pub record SystemInfo : Type 0 where
  pub dw_page_size : ℕ

-- The flags that the crate passes.
pub data AllocationType : Type 0 where
  reserve_and_commit : AllocationType

pub data Protection : Type 0 where
  page_readwrite : Protection

pub data FreeType : Type 0 where
  mem_release : FreeType

-- The calls of the `windows` crate. `K` is what the system keeps; it knows the length of the region
-- that was reserved at an address. A null pointer is 0.
pub record Windows (K Error : Type 0) : Type 0 where
  pub system_info : SystemInfo
  pub virtual_alloc : ℕ → AllocationType → Protection → M (World K) ℕ
  pub virtual_lock : ℕ → ℕ → M (World K) (Result (Unit {0}) Error)
  pub virtual_free : ℕ → ℕ → FreeType → M (World K) (Result (Unit {0}) Error)
  pub region : K → ℕ → Option ℕ

pub data PageAllocError (Error : Type 0) : Type 0 where
  virtual_alloc_error : PageAllocError Error
  virtual_lock_error : Error → PageAllocError Error

module _ {K Error : Type 0} (sys : Windows K Error) where
  unfoldable pub system_page_size : ℕ
  system_page_size = sys.system_info.dw_page_size

  -- The error of `alloc_new` is `()`.
  unfoldable pub alloc_new : M (World K) (Result Page (Unit {0}))
  alloc_new = do
    page_ptr ← sys.virtual_alloc system_page_size reserve_and_commit page_readwrite
    if page_ptr == 0 then pure (err tt) else do
      ptr ← new_unchecked page_ptr
      pure (ok (record { page_ptr = ptr; page_size = system_page_size }))

  unfoldable pub lock : Page → M (World K) (Result (Unit {0}) Error)
  lock page = sys.virtual_lock (as_ptr_mut page) (page_size page)

  unfoldable pub unwrap : Result (Unit {0}) Error → M (World K) (Unit {0})
  unwrap (ok u) = pure u
  unwrap (err e) = throw panic

  unfoldable pub drop : Page → M (World K) (Unit {0})
  drop page = do result ← sys.virtual_free (as_ptr_mut page) 0 mem_release; unwrap result

  -- What follows `page.lock()`: an early return drops the page.
  unfoldable pub locked_page :
      Page → Result (Unit {0}) Error → M (World K) (Result Page (PageAllocError Error))
  locked_page page (ok u) = pure (ok page)
  locked_page page (err e) = do drop page; pure (err (virtual_lock_error e))

  unfoldable pub lock_page :
      Result Page (Unit {0}) → M (World K) (Result Page (PageAllocError Error))
  lock_page (err u) = pure (err virtual_alloc_error)
  lock_page (ok page) = do result ← lock page; locked_page page result

  unfoldable pub alloc_new_lock : M (World K) (Result Page (PageAllocError Error))
  alloc_new_lock = do page ← alloc_new; lock_page page

-- What the documentation of the system promises. The page size is a power of two, and not tiny.
-- `VirtualAlloc` returns free addresses, from a multiple of the page size on, that read as zeros
-- from then on, or a null pointer; a call that fails changes no memory; `VirtualLock` changes no
-- memory and no region; `VirtualFree` with length 0 and `MEM_RELEASE` releases the whole region.
pub record IsWindows {K Error : Type 0} (sys : Windows K Error) : Type 0 where
  pub page_power : IsPowerOfTwo sys.system_info.dw_page_size
  pub page_large : 8 ≤ sys.system_info.dw_page_size
  pub alloc_maps :
      (w : World K)
      → let len = sys.system_info.dw_page_size in
        let o = sys.virtual_alloc len reserve_and_commit page_readwrite w in
        ((p : ℕ) × (w' : World K) × (o ≡ done (p, w'))
          × Mapped len p len w.mem w'.mem
          × (sys.region w'.alloc p ≡ some len))
        ⊎ ((w' : World K) × (o ≡ done (0, w')) × (w'.mem ≡ w.mem))
  pub lock_keeps :
      (p len : ℕ) (w : World K)
      → (r : Result (Unit {0}) Error) × (w' : World K) × (sys.virtual_lock p len w ≡ done (r, w'))
        × (w'.mem ≡ w.mem)
        × (sys.region w'.alloc p ≡ sys.region w.alloc p)
  pub free_unmaps :
      (p len : ℕ) (w : World K)
      → sys.region w.alloc p ≡ some len
      → (w' : World K) × (sys.virtual_free p 0 mem_release w ≡ done (ok tt, w'))
        × Unmapped p len w.mem w'.mem

module _ {K Error : Type 0} (sys : Windows K Error) (laws : IsWindows sys) where
  len : ℕ
  len = sys.system_info.dw_page_size

  page_at : ℕ → Page
  page_at p = record { page_ptr = p; page_size = sys.system_info.dw_page_size }

  -- The system has given out the page: it is a region of its own.
  abbrev pub IsHeld : K → Page → Type 0
  IsHeld k page = sys.region k page.page_ptr ≡ some page.page_size

  -- After `VirtualLock` the page is returned, or freed again.
  locked_page-GivesHeld :
      (p : ℕ) (w w1 w2 : World K) (r : Result (Unit {0}) Error)
      → Mapped len p len w.mem w1.mem
      → sys.region w2.alloc p ≡ some len
      → w2.mem ≡ w1.mem
      → GivesHeld IsHeld w (locked_page sys (page_at p) r w2)
  unfolding locked_page drop unwrap as_ptr_mut len page_at
  locked_page-GivesHeld p w w1 w2 (ok u) up held same = inl (
    page_at p,
    w2,
    refl,
    subst (λ m. Mapped 8 p len w.mem m) (sym same)
        (Mapped-eight laws.page_power laws.page_large up),
    held,
  )
  locked_page-GivesHeld p w w1 w2 (err e) up held same =
      let (w3, freed, down) = laws.free_unmaps p len w2 held in
      inr (
        virtual_lock_error e,
        w3,
        rw freed,
        Unmapped-Mapped up (subst (λ m. Unmapped p len m w3.mem) same down),
      )

  pub gives_held : (w : World K) → GivesHeld IsHeld w (alloc_new_lock sys w)
  unfolding alloc_new_lock alloc_new lock_page lock as_ptr_mut page_size system_page_size len
      page_at
  gives_held w = elim (laws.alloc_maps w) [
    | inl (p, w1, e, up, held) ↦
        let (r, w2, e2, same, kept) = laws.lock_keeps p len w1 in
        rw (e, pos→== p up.nonnull, new_unchecked-done p w1 up.nonnull, e2)
          (locked_page-GivesHeld p w w1 w2 r up (kept ∙ held) same)
    | inr (w1, e, same) ↦ inr (virtual_alloc_error, w1, rw e, same)
  ]

  -- Over `VirtualAlloc`, `VirtualLock` and `VirtualFree` that do what is documented,
  -- `alloc_new_lock` returns a page of zeros at addresses that were free, or an error; and after
  -- an error, of `VirtualLock` too, the memory is as it was before the call.
  pub windows_alloc_new_lock-GivesPage : (w : World K) → GivesPage w (alloc_new_lock sys w)
  windows_alloc_new_lock-GivesPage w =
      GivesHeld-GivesPage IsHeld w (alloc_new_lock sys w) (gives_held w)

  pub releases :
      (w : World K) (page : Page)
      → IsHeld w.alloc page
      → IsMapped page w.mem
      → (w' : World K) × (drop sys page w ≡ done (tt, w'))
        × Unmapped page.page_ptr page.page_size w.mem w'.mem
  unfolding drop unwrap as_ptr_mut
  releases w page held mapped =
      let (w', ran, down) = laws.free_unmaps page.page_ptr page.page_size w held in
      (w', rw ran refl, down)

  abbrev pub source : PageSource K (PageAllocError Error)
  source = record {
    alloc_new_lock = alloc_new_lock sys;
    drop = drop sys;
    Held = IsHeld;
    gives_page = gives_held;
    releases = releases;
  }
