-- ===== src/SecAlloc/Deallocate.antt =====
-- What `deallocate` of src/sec_alloc.rs does to the state, and the invariant.
use native.Mathlib.Decide.{ℕ_discrete}
use secmem_alloc.Base.{
  ℕ, ◌+◌, ◌-◌, ◌%◌, ◌≤◌, ◌<◌, ◌≡◌, inl, inr, ◌∙◌, ◌∷◌, ◌++◌, arith, ◌==◌, if◌then◌else◌, done,
  add_usize-done, sub_usize-done, le→leb,
}
use secmem_alloc.Memory.{Memory, fill}
use secmem_alloc.Memory.Ranges.{fill-inside, fill-outside}
use secmem_alloc.Util.Align.{round8, align_up_usize_eight, large_offset_from-eq}
use secmem_alloc.Zeroize.Wipe.{zeroize_mem-done}
use secmem_alloc.Page.{as_ptr}
use secmem_alloc.Layout.{Layout}
use secmem_alloc.SecAlloc.{Sec}
use secmem_alloc.SecAlloc.Resize.{check_in_use, rewind, deallocate}
use secmem_alloc.SecAlloc.Blocks.{
  Block, Blocks, IsBlock, total, Stacked, Inside-or_outside, total-middle, Stacked-middle,
  Stacked-remove, Stacked-base, Stacked-pop, Stacked-raise, Outside-middle,
}
use secmem_alloc.SecAlloc.Invariant.{Inv, stack_top}

-- The layout is one that the block was or could have been allocated for.
abbrev pub Fits : Layout → Block → Type 0
Fits l b = (0 < l.size) × (round8 l.size ≡ b.size)

-- The offset after `b` is given back, when `bytes` bytes are still in use.
abbrev pub rewound : Sec → Block → ℕ → ℕ
rewound w b bytes =
    let start = b.addr - w.alloc.page.page_ptr in
    if bytes == 0
    then 0
    else if start + b.size == w.alloc.stack_offset
    then start
    else w.alloc.stack_offset

abbrev pub freed : Sec → Block → Sec
freed w b = record w {
  alloc = record w.alloc {
    bytes = w.alloc.bytes - b.size;
    stack_offset = rewound w b (w.alloc.bytes - b.size);
  };
  mem = fill w.mem b.addr 0 b.size;
}

-- `b` is a live block, with `xs` above it and `ys` below.
module _ (xs ys : Blocks) (b : Block) {w : Sec} (inv : Inv (xs ++ b ∷ ys) w) where
  open inv use {page, offset_aligned, offset_in_page, stacked, counted, mapped, zeroed}

  -- The block lies in the part of the page that is in use.
  pub IsBlock-bounds :
      (w.alloc.page.page_ptr ≤ b.addr) × (b.addr + b.size ≤ stack_top w) × IsBlock b
  IsBlock-bounds = Stacked-middle _ b ys (stack_top w) xs stacked

  -- Its bytes are counted.
  pub bytes-eq : w.alloc.bytes ≡ b.size + total (xs ++ ys)
  bytes-eq = omega (arith, total-middle w.alloc.page.page_ptr b ys xs)

  pub check_in_use-done : check_in_use b.addr w ≡ done (tt, w)
  unfolding check_in_use as_ptr
  check_in_use-done = rw (
    le→leb w.alloc.page.page_ptr b.addr IsBlock-bounds.0,
    add_usize-done w.alloc.page.page_ptr w.alloc.stack_offset w (omega arith),
    le→leb b.addr (stack_top w) (omega (arith, IsBlock-bounds)),
  )

  rewind-eq :
      (m : Memory)
      → rewind b.addr b.size (record w { mem = m }) ≡ done (tt, record (freed w b) { mem = m })
  unfolding rewind as_ptr
  rewind-eq m = ground (
    arith,
    bytes-eq,
    IsBlock-bounds,
    sub_usize-done w.alloc.bytes b.size (record w { mem = m }),
    large_offset_from-eq b.addr w.alloc.page.page_ptr
        (record w { alloc = record w.alloc { bytes = w.alloc.bytes - b.size }; mem = m }),
    add_usize-done (b.addr - w.alloc.page.page_ptr) b.size
        (record w { alloc = record w.alloc { bytes = w.alloc.bytes - b.size }; mem = m }),
  )

  -- `deallocate` never panics on a live block.
  pub deallocate-eq : (l : Layout) → Fits l b → deallocate b.addr l w ≡ done (tt, freed w b)
  unfolding deallocate
  deallocate-eq l fits = ground (
    arith,
    check_in_use-done,
    IsBlock-bounds,
    align_up_usize_eight l.size w,
    zeroize_mem-done b.addr b.size w (λ a p q. mapped a (omega (arith, IsBlock-bounds))),
    rewind-eq (fill w.mem b.addr 0 b.size),
  )

  pub rewound_bounds :
      let o = rewound w b (w.alloc.bytes - b.size) in (o % 8 ≡ 0) × (o ≤ w.alloc.stack_offset)
  rewound_bounds = ground (arith, IsBlock-bounds)

  -- After the block is given back the rest is still below the top of the stack.
  freed-Stacked : Stacked w.alloc.page.page_ptr (stack_top (freed w b)) (xs ++ ys)
  freed-Stacked = elim (ℕ_discrete (total (xs ++ ys)) 0) [
    | yes none_left ↦ Stacked-raise base base top' rest (ground arith) (
        Stacked-base base (stack_top w) rest (Stacked-remove base b ys (stack_top w) xs stacked)
          none_left)
    | no some_left ↦ elim (ℕ_discrete (b.addr + b.size) (stack_top w)) [
      | yes last ↦
          Stacked-raise base b.addr top' rest (ground (arith, bytes-eq, IsBlock-bounds))
            (Stacked-pop base b ys (stack_top w) xs stacked (omega arith))
      | no middle ↦
          Stacked-raise base (stack_top w) top' rest (ground (arith, bytes-eq, IsBlock-bounds))
            (Stacked-remove base b ys (stack_top w) xs stacked)
    ]
  ]
    where
      base : ℕ
      base = w.alloc.page.page_ptr

      top' : ℕ
      top' = stack_top (freed w b)

      rest : Blocks
      rest = xs ++ ys

  pub freed-Inv : Inv (xs ++ ys) (freed w b)
  freed-Inv = record {
    page = page;
    offset_aligned = rewound_bounds.0;
    offset_in_page = omega (arith, rewound_bounds);
    stacked = freed-Stacked;
    counted = omega (arith, bytes-eq);
    reset = λ e. rw e;
    mapped = λ a h. ground (
      arith,
      fill-inside w.mem b.addr 0 b.size a,
      fill-outside w.mem b.addr 0 b.size a,
      mapped a,
    );
    zeroed = λ a h o. elim (Inside-or_outside a b) [
      | inl i ↦ fill-inside w.mem b.addr 0 b.size a i.0 i.1
      | inr d ↦
          fill-outside w.mem b.addr 0 b.size a d
          ∙ zeroed a h (Outside-middle w.alloc.page.page_ptr b ys a xs d o)
    ];
  }
