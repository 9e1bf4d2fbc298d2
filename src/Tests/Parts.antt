-- ===== src/Tests/Parts.antt =====
-- The zeroizers, the rounding, and the page sources on simple systems.
use secmem_alloc.Base.{
  ℕ, ◌+◌, ◌≤◌, ◌<◌, ◌≡◌, ◌⊎◌, refl, Bool, true, false, none, some, [], arith, if◌then◌else◌, done,
  ok, err, usize_mod,
}
use secmem_alloc.Memory.{Memory, World, is_mapped, in_range}
use secmem_alloc.Util.{align_up_usize}
use secmem_alloc.Util.Align.{IsRoundUp, align_up_usize-IsRoundUp}
use secmem_alloc.Zeroize.{fallback, zeroize_mem, zeroize_with}
use secmem_alloc.Zeroize.Wipe.{zeroizers_agree, zeroize_with-wipes}
use secmem_alloc.Page.Source.{Mapped, GivesPage}
use secmem_alloc.Page.Unix.{
  Rustix, IsRustix, ProtFlags, MapFlags, freebsd, unix_alloc_new_lock-GivesPage,
}
use secmem_alloc.Page.Unix
use secmem_alloc.SecAlloc.{SecStackSinglePageAlloc}
use secmem_alloc.SecAlloc.Invariant.{Inv}
use secmem_alloc.SecAlloc.New.{new, new-Inv}
use secmem_alloc.Page.Platform.{unix, alloc_new_lock-GivesPage, drop-alloc_new_lock}
use secmem_alloc.Page.Platform
use secmem_alloc.Page.Source.{WrittenPage}
use secmem_alloc.Memory.{fill}
use secmem_alloc.Tests.Systems.{empty, with_one_page, the_page, rustix_lem, rustix, rustix-IsRustix}

-- A machine on which the bytes from 0x2000 on are mapped.
abbrev mapped_page : World (Unit {0})
mapped_page = record { alloc = tt; mem = λ a. if in_range 0x2000 0x1000 a then some 9 else none }

zeroizers_agree_example :
    zeroize_with fallback 0x2010 3 mapped_page ≡ zeroize_mem 0x2010 3 mapped_page
zeroizers_agree_example = zeroizers_agree fallback 0x2010 3 mapped_page (omega arith, omega arith)

mapped_at : (a : ℕ) → 0x2010 ≤ a → a < 0x2010 + 3 → is_mapped (mapped_page.mem a) ≡ true
mapped_at a p q = ground arith

zeroize_with-wipes_example :
    (m : Memory) × (zeroize_with fallback 0x2010 3 mapped_page
      ≡ done (tt, record mapped_page { mem = m }))
    × ((a : ℕ) → 0x2010 ≤ a → a < 0x2010 + 3 → m a ≡ some 0)
    × ((a : ℕ) → (a < 0x2010) ⊎ (0x2010 + 3 ≤ a) → m a ≡ mapped_page.mem a)
zeroize_with-wipes_example =
    zeroize_with-wipes fallback 0x2010 3 mapped_page (omega arith, omega arith) mapped_at

align_up_usize-IsRoundUp_example :
    (r : ℕ) × IsRoundUp 13 8 r
    × (((r < usize_mod) × (align_up_usize 13 8 mapped_page ≡ done (r, mapped_page)))
        ⊎ ((usize_mod ≤ r) × (align_up_usize 13 8 mapped_page ≡ done (0, mapped_page))))
align_up_usize-IsRoundUp_example =
    align_up_usize-IsRoundUp 13 8 mapped_page (3, omega arith, refl) (omega arith)

-- Pages cannot be locked, so the page is unmapped again.
abbrev locked_out : World Bool
locked_out = record { alloc = false; mem = λ a. none }

abbrev ready : World Bool
ready = record { alloc = true; mem = λ a. if in_range 0x9000 0x1000 a then some 5 else none }

alloc_new_lock-GivesPage_example :
    GivesPage locked_out
      (Platform.alloc_new_lock {Error = Unit {0}} (unix rustix freebsd) locked_out)
alloc_new_lock-GivesPage_example =
    alloc_new_lock-GivesPage {Error = Unit {0}} (unix rustix freebsd) rustix-IsRustix locked_out

new-Inv_example :
    ((a : SecStackSinglePageAlloc) × (w' : World Bool) × (new
          (Unix.source rustix rustix-IsRustix freebsd)
          ready
        ≡ done (ok a, w'))
      × Inv [] (record { alloc = a; mem = w'.mem })
      × Mapped 8 a.page.page_ptr a.page.page_size ready.mem w'.mem)
    ⊎ ((e : Unix.PageAllocError (Unit {0})) × (w' : World Bool) × (new
            (Unix.source rustix rustix-IsRustix freebsd)
            ready
          ≡ done (err e, w'))
        × (w'.mem ≡ ready.mem))
new-Inv_example = new-Inv (Unix.source rustix rustix-IsRustix freebsd) ready

-- A page of the simple system, given out and written to.
abbrev scribbled : Memory
scribbled = fill with_one_page.mem 0x3100 7 5

scribbled-WrittenPage : WrittenPage the_page with_one_page.mem scribbled
unfolding fill
scribbled-WrittenPage = record {
  elsewhere = λ a o. ground arith;
  still_mapped = λ a i. ground arith;
}

drop-alloc_new_lock_example :
    (w2 : World Bool) × (Platform.drop {Errno = Unit {0}} {Error = Unit {0}}
        (unix rustix freebsd)
        the_page
        (record with_one_page { mem = scribbled })
      ≡ done (tt, w2))
    × (w2.mem ≡ (λ a. none))
unfolding Platform.alloc_new_lock
drop-alloc_new_lock_example =
    drop-alloc_new_lock {Errno = Unit {0}} {Error = Unit {0}} (unix rustix freebsd) rustix-IsRustix
      empty with_one_page the_page scribbled rustix_lem scribbled-WrittenPage
