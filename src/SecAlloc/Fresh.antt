-- ===== src/SecAlloc/Fresh.antt =====
-- What `allocate` of src/sec_alloc.rs promises: a fresh, zeroed, aligned block, or an error when the
-- rest of the page is too small.
use native.Mathlib.Decide.{dec_le}
use secmem_alloc.Base.{
  ℕ, ◌+◌, ◌%◌, ◌≤◌, ◌<◌, ◌≡◌, ◌⊎◌, inl, inr, refl, ◌∙◌, some, ◌∷◌, arith, done, ok, err, le→leb,
  lt→leb,
}
use secmem_alloc.Util.{Slice}
use secmem_alloc.Util.Align.{round8, round_up-IsRoundUp, round_up_bounds, pos_of_power}
use secmem_alloc.Layout.{Layout, IsLayout, alloc_error}
use secmem_alloc.SecAlloc.{Sec, allocate}
use secmem_alloc.SecAlloc.Blocks.{Block, Blocks, Inside, Outside, Outside-above, Stacked-raise}
use secmem_alloc.SecAlloc.Invariant.{Inv, stack_top, page_end}
use secmem_alloc.SecAlloc.Allocate.{block_addr, block_addr_lem, claimed, slice, allocate_zeroed-eq}

-- The block that a slice of the page covers.
abbrev pub block : Slice → Block
block s = record { addr = s.addr; size = s.len }

-- A block pushed onto the top of the stack keeps the invariant.
pub claimed-Inv :
    {bs : Blocks} {w : Sec}
    → Inv bs w
    → (p size : ℕ) → stack_top w ≤ p
    → p + size ≤ page_end w
    → p % 8 ≡ 0
    → size % 8 ≡ 0
    → 0 < size
    → Inv (record { addr = p; size = size } ∷ bs) (claimed w p size)
claimed-Inv {bs} {w} inv p size above fits aligned rounded pos = record {
  page = inv.page;
  offset_aligned = omega (arith, inv.page, inv.offset_aligned);
  offset_in_page = omega arith;
  stacked =
      (omega arith, (aligned, rounded, pos), Stacked-raise _ (stack_top w) p bs above inv.stacked);
  counted = omega (arith, inv.counted);
  reset = λ e. absurd (omega arith);
  mapped = inv.mapped;
  zeroed = λ a h o. inv.zeroed a h o.1;
}

-- A block starts less than its alignment above the first free address, or there.
pub block_addr-le : (top : ℕ) (l : Layout) → IsLayout l → block_addr top l.align ≤ top + l.align
block_addr-le top l lay = ground (arith, round_up_bounds top l.align (pos_of_power lay.power))

-- `s` is a new allocation for `l`: it is large enough and aligned, all its bytes are 0, no byte of
-- it belongs to a live block, and only the two counters of the allocator have changed. No more room
-- is used up than the rounded size and the alignment take.
pub record IsFresh (bs : Blocks) (l : Layout) (w : Sec) (s : Slice) (w' : Sec) : Type 0 where
  pub inv : Inv (block s ∷ bs) w'
  pub large : l.size ≤ s.len
  pub rounded : s.len ≡ round8 l.size
  pub aligned : s.addr % l.align ≡ 0
  pub zero_bytes : (a : ℕ) → Inside a (block s) → w'.mem a ≡ some 0
  pub separate : (a : ℕ) → Inside a (block s) → Outside a bs
  pub same_memory : w'.mem ≡ w.mem
  pub same_page : w'.alloc.page ≡ w.alloc.page
  pub offset : w'.alloc.stack_offset ≤ w.alloc.stack_offset + l.align + round8 l.size

-- No block for `l` fits between the top of the stack and the end of the page.
abbrev pub NoRoom : Layout → Sec → Type 0
NoRoom l w =
    (p : ℕ) → stack_top w ≤ p → p % l.align ≡ 0 → p % 8 ≡ 0 → page_end w < p + round8 l.size

pub IsFresh-claimed :
    {bs : Blocks} {w : Sec} (l : Layout)
    → Inv bs w
    → IsLayout l
    → 0 < l.size
    → let p = block_addr (stack_top w) l.align in
      p + round8 l.size ≤ page_end w
      → IsFresh bs l w (slice p (round8 l.size)) (claimed w p (round8 l.size))
IsFresh-claimed {bs} {w} l inv lay pos fits =
    let (above, eight, aligned) = block_addr_lem inv l lay in
    record {
      inv = claimed-Inv inv p (round8 l.size) above fits eight (omega arith) (omega arith);
      large = omega arith;
      rounded = refl;
      aligned = aligned;
      zero_bytes = λ a i.
          inv.zeroed a (omega arith) (Outside-above _ (stack_top w) a bs inv.stacked (omega arith));
      separate = λ a i. Outside-above _ (stack_top w) a bs inv.stacked (omega arith);
      same_memory = refl;
      same_page = refl;
      offset = omega (arith, block_addr-le (stack_top w) l lay);
    }
  where
    p : ℕ
    p = block_addr (stack_top w) l.align

pub block_addr-least :
    (top align q : ℕ) → 0 < align → top ≤ q → q % align ≡ 0 → block_addr top align ≤ q
block_addr-least top align q pos le e = elim (dec_le align 8) [
  | yes small ↦ rw (le→leb align 8 small) le
  | no large ↦ rw (lt→leb align 8 (omega arith)) ((round_up-IsRoundUp top align pos).least q e le)
]

-- Under the invariant and for a layout that is not empty, `allocate` returns a fresh block, or
-- an error and leaves everything as it was; it returns the error only if no block for the layout
-- fits between the last allocation and the end of the page.
pub allocate-IsFresh :
    {bs : Blocks} {w : Sec} (l : Layout)
    → Inv bs w
    → IsLayout l
    → 0 < l.size
    → ((s : Slice) × (w' : Sec) × (allocate l w ≡ done (ok s, w')) × IsFresh bs l w s w')
      ⊎ ((allocate l w ≡ done (err alloc_error, w)) × NoRoom l w)
unfolding allocate
allocate-IsFresh {bs} {w} l inv lay pos = elim (dec_le (p + round8 l.size) (page_end w)) [
  | yes fits ↦ inl (
    slice p (round8 l.size),
    claimed w p (round8 l.size),
    allocate_zeroed-eq inv l lay pos ∙ rw (le→leb (p + round8 l.size) (page_end w) fits),
    IsFresh-claimed l inv lay pos fits,
  )
  | no full ↦ inr (
    allocate_zeroed-eq inv l lay pos ∙ rw (lt→leb (p + round8 l.size) (page_end w) (omega arith)),
    λ q above e e8.
        omega (arith, block_addr-least (stack_top w) l.align q (pos_of_power lay.power) above e),
  )
]
  where
    p : ℕ
    p = block_addr (stack_top w) l.align
