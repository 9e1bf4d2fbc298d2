-- ===== src/Page/Platform.antt =====
-- The choice that src/internals/mem.rs makes when the crate is built: which of the three modules gives
-- `Page` its constructor, its `drop` and its `PageAllocError`.
use secmem_alloc.Base.{M, Result, ◌≡◌, done, ok}
use secmem_alloc.Memory.{Memory, World}
use secmem_alloc.Page.{Page}
use secmem_alloc.Page.Source.{PageSource, WrittenPage, GivesPage, drop_restores}
use secmem_alloc.Page.Unix.{Rustix, IsRustix, TargetOs}
use secmem_alloc.Page.Unix
use secmem_alloc.Page.Windows.{Windows, IsWindows}
use secmem_alloc.Page.Windows
use secmem_alloc.Page.Miri.{StdAlloc, IsStdAlloc}
use secmem_alloc.Page.Miri

-- A target, with the calls of its system.
pub data Platform (K Errno Error : Type 0) : Type 0 where
  miri : StdAlloc K → Platform K Errno Error
  unix : Rustix K Errno → TargetOs → Platform K Errno Error
  windows : Windows K Error → Platform K Errno Error

module _ {K Errno Error : Type 0} where
  -- The re-export of the error.
  abbrev pub PageAllocError : Platform K Errno Error → Type 0
  PageAllocError (miri sys) = Miri.PageAllocError
  PageAllocError (unix sys os) = Unix.PageAllocError Errno
  PageAllocError (windows sys) = Windows.PageAllocError Error

  unfoldable pub alloc_new_lock :
      (p : Platform K Errno Error) → M (World K) (Result Page (PageAllocError p))
  alloc_new_lock (miri sys) = Miri.alloc_new_lock sys
  alloc_new_lock (unix sys os) = Unix.alloc_new_lock sys os
  alloc_new_lock (windows sys) = Windows.alloc_new_lock sys

  unfoldable pub drop : Platform K Errno Error → Page → M (World K) (Unit {0})
  drop (miri sys) = Miri.drop sys
  drop (unix sys os) = Unix.drop sys os
  drop (windows sys) = Windows.drop sys

  -- What the documentation of the system promises.
  abbrev pub IsDocumented : Platform K Errno Error → Type 0
  IsDocumented (miri sys) = IsStdAlloc sys
  IsDocumented (unix sys os) = IsRustix sys
  IsDocumented (windows sys) = IsWindows sys

  -- Each of them is a source of pages.
  abbrev pub source :
      (p : Platform K Errno Error) → IsDocumented p → PageSource K (PageAllocError p)
  source (miri sys) laws = Miri.source sys laws
  source (unix sys os) laws = Unix.source sys laws os
  source (windows sys) laws = Windows.source sys laws

  -- On Unix, on Windows and under Miri, over a system that does what is documented,
  -- `alloc_new_lock` returns a page of zeros at addresses that were free, or an error; and after
  -- an error, of the call that locks the page too, the memory is as it was before the call.
  pub alloc_new_lock-GivesPage :
      (p : Platform K Errno Error)
      → IsDocumented p
      → (w : World K) → GivesPage w (alloc_new_lock p w)
  unfolding alloc_new_lock
  alloc_new_lock-GivesPage (miri sys) laws = Miri.miri_alloc_new_lock-GivesPage sys laws
  alloc_new_lock-GivesPage (unix sys os) laws = Unix.unix_alloc_new_lock-GivesPage sys laws os
  alloc_new_lock-GivesPage (windows sys) laws = Windows.windows_alloc_new_lock-GivesPage sys laws

  -- On Unix, on Windows and under Miri, over a system that does what is documented: if
  -- `alloc_new_lock` has returned a page, and then only bytes of the page are written, `drop` of
  -- the page returns, and the memory of the process is what it was before.
  pub drop-alloc_new_lock :
      (p : Platform K Errno Error) (laws : IsDocumented p) (w w1 : World K) (page : Page)
      (m : Memory)
      → alloc_new_lock p w ≡ done (ok page, w1)
      → WrittenPage page w1.mem m
      → (w2 : World K) × (drop p page (record w1 { mem = m }) ≡ done (tt, w2)) × (w2.mem ≡ w.mem)
  unfolding alloc_new_lock drop
  drop-alloc_new_lock (miri sys) laws = drop_restores (Miri.source sys laws)
  drop-alloc_new_lock (unix sys os) laws = drop_restores (Unix.source sys laws os)
  drop-alloc_new_lock (windows sys) laws = drop_restores (Windows.source sys laws)
