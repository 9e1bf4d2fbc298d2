-- ===== src/Tests/Machine.antt =====
-- A machine with one page, on which the code of src/sec_alloc.rs is run.
use secmem_alloc.Base.{refl, none, some, [], ◌∷◌, arith, if◌then◌else◌}
use secmem_alloc.Memory.{Memory, in_range}
use secmem_alloc.Layout.{Layout, IsLayout}
use secmem_alloc.Page.{Page}
use secmem_alloc.SecAlloc.{Sec}
use secmem_alloc.SecAlloc.Blocks.{Block}
use secmem_alloc.SecAlloc.Invariant.{IsPage, Inv}
use secmem_alloc.SecAlloc.Fresh.{claimed-Inv}

-- Only the page is mapped.
abbrev pub one_page : Memory
one_page a = if in_range 0x1000 0x1000 a then some 0 else none

abbrev pub page : Page
page = record { page_ptr = 0x1000; page_size = 0x1000 }

abbrev pub at_start : Sec
at_start = record { alloc = record { bytes = 0; page = page; stack_offset = 0 }; mem = one_page }

pub page-IsPage : IsPage page
page-IsPage = record { nonnull = omega arith; aligned = refl; small = omega arith }

pub at_start-Inv : Inv [] at_start
at_start-Inv = record {
  page = page-IsPage;
  offset_aligned = refl;
  offset_in_page = omega arith;
  stacked = omega arith;
  counted = refl;
  reset = λ e. refl;
  mapped = λ a h. ground arith;
  zeroed = λ a h o. ground arith;
}

abbrev pub five : Layout
five = record { size = 5; align = 1 }

abbrev pub sixteen : Layout
sixteen = record { size = 16; align = 64 }

abbrev pub three : Layout
three = record { size = 3; align = 4 }

pub five-IsLayout : IsLayout five
five-IsLayout = record { power = (0, omega arith, refl); fits = omega arith }

pub sixteen-IsLayout : IsLayout sixteen
sixteen-IsLayout = record { power = (6, omega arith, refl); fits = omega arith }

pub three-IsLayout : IsLayout three
three-IsLayout = record { power = (2, omega arith, refl); fits = omega arith }

-- The blocks of two allocations: the second skips to a multiple of 64.
abbrev pub low : Block
low = record { addr = 0x1000; size = 8 }

abbrev pub high : Block
high = record { addr = 0x1040; size = 16 }

abbrev pub after_five : Sec
after_five = record { alloc = record { bytes = 8; page = page; stack_offset = 8 }; mem = one_page }

abbrev pub after_sixteen : Sec
after_sixteen = record {
  alloc = record { bytes = 24; page = page; stack_offset = 80 };
  mem = one_page;
}

pub after_five-Inv : Inv (low ∷ []) after_five
after_five-Inv =
    claimed-Inv at_start-Inv 0x1000 8 (omega arith) (omega arith) refl refl (omega arith)

pub after_sixteen-Inv : Inv (high ∷ low ∷ []) after_sixteen
after_sixteen-Inv =
    claimed-Inv after_five-Inv 0x1040 16 (omega arith) (omega arith) refl refl (omega arith)
