-- ===== src/SecAlloc/Grow.antt =====
-- `grow_zeroed` of src/sec_alloc.rs on the last allocation, with the alignment that is asked for.
use native.Mathlib.Decide.{dec_le}
use secmem_alloc.Base.{
  ℕ, ◌+◌, ◌-◌, ◌%◌, ◌≤◌, ◌<◌, ◌≡◌, ◌⊎◌, inl, inr, refl, ◌∙◌, ◌∷◌, ◌++◌, arith, leb, if◌then◌else◌,
  done, ok, err, add_usize-done, sub_usize-done, le→leb, lt→leb,
}
use secmem_alloc.Memory.Ranges.{new_unchecked-done}
use secmem_alloc.Util.{unlikely}
use secmem_alloc.Util.Align.{round8, align_up_usize_eight, large_offset_from-eq}
use secmem_alloc.Page.{page_size, as_ptr}
use secmem_alloc.Layout.{Layout, IsLayout, alloc_error}
use secmem_alloc.SecAlloc.{Sec}
use secmem_alloc.SecAlloc.Resize.{grow_in_place}
use secmem_alloc.SecAlloc.Blocks.{
  Block, Blocks, IsBlock, Outside, Stacked-resize_last, Stacked-raise, Outside-middle,
  Outside-middle_inv, total-middle, total-le, Outside-above,
}
use secmem_alloc.SecAlloc.Invariant.{Inv, stack_top, page_end}
use secmem_alloc.SecAlloc.Allocate.{slice}
use secmem_alloc.SecAlloc.Deallocate.{IsBlock-bounds, bytes-eq}
use secmem_alloc.SecAlloc.Resized.{IsResized}
use secmem_alloc.SecAlloc.Shrink.{resized}
use secmem_alloc.SecAlloc.Move.{Moves}

-- The state after the last block `b` has got `size` bytes.
abbrev pub grown : Sec → Block → ℕ → Sec
grown w b size = record w {
  alloc = record w.alloc {
    bytes = w.alloc.bytes + (size - b.size);
    stack_offset = w.alloc.stack_offset + (size - b.size);
  };
}

module _ (xs ys : Blocks) (b : Block) {w : Sec} (inv : Inv (xs ++ b ∷ ys) w) (new : Layout)
    (lay : IsLayout new) (le : b.size ≤ round8 new.size)
    (last : b.addr + b.size ≡ stack_top w) where
  open inv use {page, offset_aligned, offset_in_page, stacked, counted, mapped, zeroed}

  bounds : (w.alloc.page.page_ptr ≤ b.addr) × (b.addr + b.size ≤ stack_top w) × IsBlock b
  bounds = IsBlock-bounds xs ys b inv

  pub grow_in_place-eq :
      grow_in_place b.addr b.size new w
      ≡ done (
          if leb (b.addr + round8 new.size) (page_end w)
          then (ok (slice b.addr (round8 new.size)), grown w b (round8 new.size))
          else (err alloc_error, w))
  unfolding grow_in_place unlikely page_size as_ptr
  grow_in_place-eq = ground (
    arith,
    bounds,
    lay.fits,
    align_up_usize_eight new.size w,
    large_offset_from-eq b.addr w.alloc.page.page_ptr w,
    sub_usize-done w.alloc.page.page_size (b.addr - w.alloc.page.page_ptr) w,
    sub_usize-done n b.size w,
    bytes-le,
    add_usize-done w.alloc.bytes (n - b.size) w,
    add_usize-done w.alloc.stack_offset (n - b.size) w1,
    new_unchecked-done b.addr (record w1 {
      alloc = record w1.alloc { stack_offset = w.alloc.stack_offset + (n - b.size) };
    }),
  )
    where
      n : ℕ
      n = round8 new.size

      w1 : Sec
      w1 = record w { alloc = record w.alloc { bytes = w.alloc.bytes + (n - b.size) } }

      bytes-le : w.alloc.page.page_ptr + w.alloc.bytes ≤ stack_top w
      bytes-le = omega (arith, total-le _ _ _ stacked)

  grown-Inv :
      b.addr + round8 new.size ≤ page_end w
      → Inv (xs ++ resized b (round8 new.size) ∷ ys) (grown w b (round8 new.size))
  grown-Inv fits = record {
    page = page;
    offset_aligned = omega (arith, bounds);
    offset_in_page = omega (arith, bounds);
    stacked = Stacked-raise base (b.addr + n) (stack_top (grown w b n)) blocks (omega arith) (
        Stacked-resize_last base b ys (stack_top w) n xs stacked (omega arith) (omega arith)
          (omega (arith, bounds)));
    counted =
        omega (arith, bytes-eq xs ys b inv, total-middle w.alloc.page.page_ptr (resized b n) ys xs);
    reset = λ e. absurd (omega (arith, bytes-eq xs ys b inv, bounds));
    mapped = mapped;
    zeroed = λ a h o. zeroed a h (smaller a (Outside-middle_inv base (resized b n) ys a xs o));
  }
    where
      n : ℕ
      n = round8 new.size

      base : ℕ
      base = w.alloc.page.page_ptr

      blocks : Blocks
      blocks = xs ++ resized b n ∷ ys

      smaller :
          (a : ℕ)
          → ((a < b.addr) ⊎ (b.addr + n ≤ a)) × Outside a (xs ++ ys)
          → Outside a (xs ++ b ∷ ys)
      smaller a o = Outside-middle base b ys a xs (omega (arith, o.0)) o.1

  grown-IsResized :
      (kept : ℕ)
      → kept ≤ b.size
      → b.addr + round8 new.size ≤ page_end w
      → b.addr % new.align ≡ 0
      → IsResized xs ys b new kept w (slice b.addr (round8 new.size)) (grown w b (round8 new.size))
  grown-IsResized kept few fits aligned = record {
    placed = inl (refl, grown-Inv fits);
    large = omega arith;
    rounded = refl;
    aligned = aligned;
    contents = λ i h. refl;
    grown_zero = λ i h k.
        zeroed (b.addr + i) (omega (arith, bounds))
          (Outside-above _ (stack_top w) (b.addr + i) (xs ++ b ∷ ys) stacked (omega arith));
    wiped = λ a i o. absurd (o (omega arith));
    others = λ a o p. refl;
    same_page = refl;
    offset = omega arith;
  }

  pub grow_in_place_lem :
      (kept : ℕ)
      → kept ≤ b.size
      → b.addr % new.align ≡ 0
      → Moves xs ys b new kept w (grow_in_place b.addr b.size new w)
  grow_in_place_lem kept few aligned = elim (dec_le (b.addr + round8 new.size) (page_end w)) [
    | yes fits ↦ inl (
      slice b.addr (round8 new.size),
      grown w b (round8 new.size),
      grow_in_place-eq ∙ rw (le→leb (b.addr + round8 new.size) (page_end w) fits),
      grown-IsResized kept few fits aligned,
    )
    | no full ↦ inr (
      grow_in_place-eq ∙ rw (lt→leb (b.addr + round8 new.size) (page_end w) (omega arith)),
      λ p above e e8. omega (arith, bounds),
    )
  ]
