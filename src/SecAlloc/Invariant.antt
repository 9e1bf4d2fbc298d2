-- ===== src/SecAlloc/Invariant.antt =====
-- The invariant of the allocator of src/sec_alloc.rs: what `consistency_check` and the comments
-- marked SAFETY INVARIANT say of the state, and how it stands to the live blocks and the memory.
use secmem_alloc.Base.{ℕ, ◌+◌, ◌%◌, ◌≤◌, ◌<◌, ◌≡◌, ◌∙◌, true, some, usize_mod}
use secmem_alloc.Memory.{Memory, is_mapped}
use secmem_alloc.Page.{Page}
use secmem_alloc.SecAlloc.{Sec}
use secmem_alloc.SecAlloc.Blocks.{Blocks, total, Stacked, Outside}

-- What the system promises of a page: it is not at address 0, it is aligned, and it does not
-- reach the end of the address space.
pub record IsPage (p : Page) : Type 0 where
  pub nonnull : 0 < p.page_ptr
  pub aligned : p.page_ptr % 8 ≡ 0
  pub small : p.page_ptr + p.page_size < usize_mod

-- The first address that is free, and the end of the page.
abbrev pub stack_top : Sec → ℕ
stack_top w = w.alloc.page.page_ptr + w.alloc.stack_offset

abbrev pub page_end : Sec → ℕ
page_end w = w.alloc.page.page_ptr + w.alloc.page.page_size

-- The address lies in the page.
abbrev pub InPage : Sec → ℕ → Type 0
InPage w a = (w.alloc.page.page_ptr ≤ a) × (a < page_end w)

pub record Inv (bs : Blocks) (w : Sec) : Type 0 where
  pub page : IsPage w.alloc.page
  pub offset_aligned : w.alloc.stack_offset % 8 ≡ 0
  pub offset_in_page : w.alloc.stack_offset ≤ w.alloc.page.page_size
  pub stacked : Stacked w.alloc.page.page_ptr (stack_top w) bs
  pub counted : w.alloc.bytes ≡ total bs
  pub reset : w.alloc.bytes ≡ 0 → w.alloc.stack_offset ≡ 0
  pub mapped : (a : ℕ) → InPage w a → is_mapped (w.mem a) ≡ true
  pub zeroed : (a : ℕ) → InPage w a → Outside a bs → w.mem a ≡ some 0

-- The invariant does not depend on what the bytes of live blocks are.
pub Inv-mem :
    {bs : Blocks} {w : Sec}
    → Inv bs w
    → (m : Memory) → ((a : ℕ) → InPage w a → is_mapped (m a) ≡ true)
    → ((a : ℕ) → InPage w a → Outside a bs → m a ≡ w.mem a)
    → Inv bs (record w { mem = m })
Inv-mem inv m maps same = record {
  page = inv.page;
  offset_aligned = inv.offset_aligned;
  offset_in_page = inv.offset_in_page;
  stacked = inv.stacked;
  counted = inv.counted;
  reset = inv.reset;
  mapped = maps;
  zeroed = λ a h o. same a h o ∙ inv.zeroed a h o;
}
