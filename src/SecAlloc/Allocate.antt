-- ===== src/SecAlloc/Allocate.antt =====
-- What `allocate_zeroed` of src/sec_alloc.rs returns and changes, on every branch.
use native.Mathlib.Decide.{dec_le}
use native.Mathlib.Nat.{pow-le-pow_right}
use secmem_alloc.Base.{
  IsPowerOfTwo, ℕ, zero, suc, ◌+◌, ◌-◌, ◌%◌, ◌≤◌, ◌<◌, ◌≡◌, inl, inr, true, ◌||◌, arith, leb, ◌==◌,
  if◌then◌else◌, done, ok, err, usize_mod, is_power_of_two-true, add_usize-done, sub_usize-done,
  le→leb, lt→leb,
}
use secmem_alloc.Memory.Ranges.{ptr_add-done, new_unchecked-done}
use secmem_alloc.Util.{Slice, unlikely}
use secmem_alloc.Util.Align.{
  pos_of_power, eight-IsPowerOfTwo, mod-power, round_up-IsRoundUp, round_up, round_up_bounds,
  round8, round_up-mod, round_bits, align_up_ptr_mut-eq, large_offset_from-eq,
}
use secmem_alloc.Page.{page_size, as_ptr, as_ptr_mut}
use secmem_alloc.Layout.{Layout, IsLayout, alloc_error}
use secmem_alloc.SecAlloc.{
  Sec, SliceResult, allocate_zerosized, claim, allocate_low_align, allocate_high_align,
  allocate_zeroed,
}
use secmem_alloc.SecAlloc.Blocks.{Blocks, total-le}
use secmem_alloc.SecAlloc.Invariant.{Inv, stack_top, page_end}

-- Where a block with this alignment starts, if the first free address is `top`.
abbrev pub block_addr : ℕ → ℕ → ℕ
block_addr top align = if leb align 8 then top else round_up top align

-- The state in which the block at `p` is the last allocation.
abbrev pub claimed : Sec → ℕ → ℕ → Sec
claimed w p size = record w {
  alloc = record w.alloc {
    bytes = w.alloc.bytes + size;
    stack_offset = p - w.alloc.page.page_ptr + size;
  };
}

abbrev pub slice : ℕ → ℕ → Slice
slice p len = record { addr = p; len = len }

-- What `allocate_zeroed` returns for a layout that is not empty.
abbrev pub allocated : Layout → Sec → SliceResult × Sec
allocated l w =
    let p = block_addr (stack_top w) l.align in
    if leb (p + round8 l.size) (page_end w)
    then (ok (slice p (round8 l.size)), claimed w p (round8 l.size))
    else (err alloc_error, w)

claim-eq :
    (start offset size : ℕ) (w : Sec)
    → 0 < start
    → offset + size < usize_mod
    → w.alloc.bytes + size < usize_mod
    → claim start offset size w
      ≡ done (
        ok (slice start size),
        record w {
          alloc = record w.alloc { bytes = w.alloc.bytes + size; stack_offset = offset + size };
        },
      )
unfolding claim
claim-eq start offset size w pos h k = rw (
  new_unchecked-done start w pos,
  add_usize-done offset size w h,
  add_usize-done w.alloc.bytes size
      (record w { alloc = record w.alloc { stack_offset = offset + size } }) k,
)

-- The powers of two up to 8, which the debug assertion of the fast path lists.
small_power :
    (align : ℕ)
    → IsPowerOfTwo align
    → align ≤ 8
    → (align == 1 || align == 2 || align == 4 || align == 8) ≡ true
small_power align (zero, h, e) le = rw e
small_power align (suc zero, h, e) le = rw e
small_power align (suc (suc zero), h, e) le = rw e
small_power align (suc (suc (suc zero)), h, e) le = rw e
small_power align (suc (suc (suc (suc k))), h, e) le = absurd (
    omega (
      arith,
      pow-le-pow_right {n = 2} (omega arith) {i = 4} {j = suc (suc (suc (suc k)))} (omega arith),
    ))

module _ {bs : Blocks} {w : Sec} (inv : Inv bs w) (l : Layout) (lay : IsLayout l) where
  open inv use {page, offset_in_page, stacked, counted}

  -- The number of bytes in use and the size of the page leave room for every rounded layout.
  bytes-le : w.alloc.page.page_ptr + w.alloc.bytes ≤ stack_top w
  bytes-le = omega (arith, total-le _ _ bs stacked)

  low_align-eq :
      (size : ℕ)
      → l.align ≤ 8
      → stack_top w + size ≤ page_end w
      → allocate_low_align (stack_top w) l size w
        ≡ done (ok (slice (stack_top w) size), claimed w (stack_top w) size)
  unfolding allocate_low_align
  low_align-eq size le fits = ground (
    arith,
    small_power l.align lay.power le,
    claim-eq (stack_top w) w.alloc.stack_offset size w,
    bytes-le,
  )

  high_align-eq :
      (size : ℕ)
      → 0 < size
      → let p = round_up (stack_top w) l.align in
        allocate_high_align (stack_top w) l size w
        ≡ done (
            if leb (p + size) (page_end w)
            then (ok (slice p size), claimed w p size)
            else (err alloc_error, w))
  unfolding allocate_high_align unlikely page_size as_ptr
  high_align-eq size pos = elim (round_up-mod top l.align lay.power (omega arith)) [
    | inl (fits, e) ↦ ground (
      arith,
      align_up_ptr_mut-eq top l.align w lay.power,
      e,
      round_up_bounds top l.align (pos_of_power lay.power),
      large_offset_from-eq p base w,
      sub_usize-done w.alloc.page.page_size (p - base) w,
      claim-eq p (p - base) size w,
      bytes-le,
    )
    | inr (wraps, e) ↦ ground (arith, align_up_ptr_mut-eq top l.align w lay.power, e)
  ]
    where
      top : ℕ
      top = stack_top w

      base : ℕ
      base = w.alloc.page.page_ptr

      p : ℕ
      p = round_up top l.align

  -- The start of a block: at or above the first free address, and aligned to 8 and as asked.
  pub block_addr_lem :
      let p = block_addr (stack_top w) l.align in
      (stack_top w ≤ p) × (p % 8 ≡ 0) × (p % l.align ≡ 0)
  block_addr_lem = elim (dec_le l.align 8) [
    | yes le ↦ rw (le→leb l.align 8 le) (
      omega arith,
      top_aligned,
      mod-power l.align 8 (stack_top w) lay.power eight-IsPowerOfTwo le top_aligned,
    )
    | no gt ↦ rw (lt→leb l.align 8 (omega arith)) (
      (round_up_bounds (stack_top w) l.align pos).0,
      mod-power 8 l.align (round_up (stack_top w) l.align) eight-IsPowerOfTwo lay.power
          (omega arith) rounded,
      rounded,
    )
  ]
    where
      pos : 0 < l.align
      pos = pos_of_power lay.power

      rounded : round_up (stack_top w) l.align % l.align ≡ 0
      rounded = (round_up-IsRoundUp (stack_top w) l.align pos).multiple

      top_aligned : stack_top w % 8 ≡ 0
      top_aligned = omega (arith, page.aligned, inv.offset_aligned)

  -- Under the invariant and for a layout that is not empty, `allocate_zeroed` returns a block of
  -- the size rounded up to 8 at the first free address, or for an alignment over 8 the first
  -- free address that is aligned, if that fits the page; otherwise it returns an error and
  -- changes nothing.
  pub allocate_zeroed-eq : 0 < l.size → allocate_zeroed l w ≡ done (allocated l w)
  unfolding allocate_zeroed unlikely page_size as_ptr_mut
  allocate_zeroed-eq pos = ground (
    arith,
    is_power_of_two-true l.align lay.power,
    round_bits l.size,
    lay.fits,
    sub_usize-done w.alloc.page.page_size w.alloc.stack_offset w,
    ptr_add-done w.alloc.page.page_ptr w.alloc.stack_offset w,
    low_align-eq (round8 l.size),
    high_align-eq (round8 l.size),
    block_addr_lem,
  )

  -- An empty layout gets a dangling pointer at its alignment, and nothing changes.
  pub allocate_zeroed_empty : l.size ≡ 0 → allocate_zeroed l w ≡ done (ok (slice l.align 0), w)
  unfolding allocate_zeroed allocate_zerosized
  allocate_zeroed_empty e = rw (
    is_power_of_two-true l.align lay.power,
    e,
    new_unchecked-done l.align w (pos_of_power lay.power),
  )
