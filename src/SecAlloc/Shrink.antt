-- ===== src/SecAlloc/Shrink.antt =====
-- `shrink` of src/sec_alloc.rs on an allocation with the alignment that is asked for.
use secmem_alloc.Base.{
  ℕ, ◌+◌, ◌-◌, ◌%◌, ◌≤◌, ◌<◌, ◌≡◌, ◌⊎◌, inl, inr, refl, ◌∙◌, ◌∷◌, ◌++◌, arith, ◌==◌, if◌then◌else◌,
  done, ok, add_usize-done, sub_usize-done,
}
use native.Mathlib.Decide.{ℕ_discrete}
use secmem_alloc.Memory.{Memory, fill}
use secmem_alloc.Memory.Ranges.{fill-inside, fill-outside, ptr_add-done, new_unchecked-done}
use secmem_alloc.Util.Align.{round8, align_up_usize_eight, large_offset_from-eq}
use secmem_alloc.Zeroize.Wipe.{zeroize_mem-done}
use secmem_alloc.Page.{as_ptr}
use secmem_alloc.Layout.{Layout, IsLayout}
use secmem_alloc.SecAlloc.{Sec, ptr_is_last_allocation}
use secmem_alloc.SecAlloc.Resize.{shrink_in_place}
use secmem_alloc.SecAlloc.Blocks.{
  Block, Blocks, IsBlock, Stacked, Inside-or_outside, not-Inside, Stacked-raise, Outside,
  total-middle, Stacked-resize, Stacked-resize_last, Outside-middle, Outside-middle_inv,
}
use secmem_alloc.SecAlloc.Invariant.{Inv, stack_top}
use secmem_alloc.SecAlloc.Allocate.{slice}
use secmem_alloc.SecAlloc.Deallocate.{Fits, IsBlock-bounds, bytes-eq}
use secmem_alloc.SecAlloc.Resized.{IsResized}

abbrev pub resized : Block → ℕ → Block
resized b size = record b { size = size }

-- The state after the end of `b`, from `size` bytes on, is given back.
abbrev pub shrunk : Sec → Block → ℕ → Sec
shrunk w b size = record w {
  alloc = record w.alloc {
    bytes = w.alloc.bytes - (b.size - size);
    stack_offset =
        if b.addr - w.alloc.page.page_ptr + b.size == w.alloc.stack_offset
        then w.alloc.stack_offset - (b.size - size)
        else w.alloc.stack_offset;
  };
  mem = fill w.mem (b.addr + size) 0 (b.size - size);
}

module _ (xs ys : Blocks) (b : Block) {w : Sec} (inv : Inv (xs ++ b ∷ ys) w) where
  open inv use {page, offset_aligned, offset_in_page, stacked, counted, mapped, zeroed}

  -- `ptr_is_last_allocation` compares the end of the block with the top of the stack, whatever
  -- the number of bytes and the memory.
  pub ptr_is_last_allocation-eq :
      (n : ℕ) (m : Memory)
      → let w' = record w { alloc = record w.alloc { bytes = n }; mem = m } in
        ptr_is_last_allocation b.addr b.size w'
        ≡ done ((b.addr - w.alloc.page.page_ptr + b.size == w.alloc.stack_offset), w')
  unfolding ptr_is_last_allocation as_ptr
  ptr_is_last_allocation-eq n m = rw (
    large_offset_from-eq b.addr w.alloc.page.page_ptr w' (IsBlock-bounds xs ys b inv).0,
    add_usize-done (b.addr - w.alloc.page.page_ptr) b.size w'
        (omega (arith, IsBlock-bounds xs ys b inv)),
  )
    where
      w' : Sec
      w' = record w { alloc = record w.alloc { bytes = n }; mem = m }

  module _ (old new : Layout) (fits : Fits old b) (lay : IsLayout new) (pos : 0 < new.size)
      (le : new.size ≤ old.size) where
    -- `shrink_in_place` never panics, and touches no memory but the end of the block.
    pub shrink_in_place-eq :
        shrink_in_place b.addr old new w
        ≡ done (ok (slice b.addr (round8 new.size)), shrunk w b (round8 new.size))
    unfolding shrink_in_place
    shrink_in_place-eq = ground (
      arith,
      bounds,
      align_up_usize_eight old.size w,
      align_up_usize_eight new.size w,
      ptr_add-done b.addr n w,
      sub_usize-done b.size n w,
      zeroize_mem-done (b.addr + n) d w (λ a p q. mapped a (omega (arith, bounds))),
      sub_usize-done w.alloc.bytes d (record w { mem = m }),
      bytes-eq xs ys b inv,
      ptr_is_last_allocation-eq (w.alloc.bytes - d) m,
      sub_usize-done w.alloc.stack_offset d w1,
      new_unchecked-done b.addr w1,
      new_unchecked-done b.addr
          (record w1 { alloc = record w1.alloc { stack_offset = w.alloc.stack_offset - d } }),
    )
      where
        n : ℕ
        n = round8 new.size

        d : ℕ
        d = b.size - n

        m : Memory
        m = fill w.mem (b.addr + n) 0 d

        w1 : Sec
        w1 = record w { alloc = record w.alloc { bytes = w.alloc.bytes - d }; mem = m }

        bounds : (w.alloc.page.page_ptr ≤ b.addr) × (b.addr + b.size ≤ stack_top w) × IsBlock b
        bounds = IsBlock-bounds xs ys b inv

    shrunk-Stacked :
        Stacked w.alloc.page.page_ptr
          (stack_top (shrunk w b (round8 new.size)))
          (xs ++ resized b (round8 new.size) ∷ ys)
    shrunk-Stacked = elim (ℕ_discrete (b.addr + b.size) (stack_top w)) [
      | yes last ↦
          Stacked-raise base (b.addr + n) top' blocks (ground (arith, IsBlock-bounds xs ys b inv)) (
            Stacked-resize_last base b ys (stack_top w) n xs stacked (omega arith) (omega arith)
              (omega arith))
      | no other ↦
          Stacked-raise base (stack_top w) top' blocks (ground (arith, IsBlock-bounds xs ys b inv))
            (Stacked-resize base b ys (stack_top w) n xs stacked (omega arith) (omega arith)
              (omega arith))
    ]
      where
        base : ℕ
        base = w.alloc.page.page_ptr

        n : ℕ
        n = round8 new.size

        top' : ℕ
        top' = stack_top (shrunk w b n)

        blocks : Blocks
        blocks = xs ++ resized b n ∷ ys

    -- The invariant holds with the block at its new size.
    shrunk-Inv : Inv (xs ++ resized b (round8 new.size) ∷ ys) (shrunk w b (round8 new.size))
    shrunk-Inv = record {
      page = page;
      offset_aligned = ground (arith, IsBlock-bounds xs ys b inv);
      offset_in_page = ground arith;
      stacked = shrunk-Stacked;
      counted = omega (
        arith,
        bytes-eq xs ys b inv,
        total-middle w.alloc.page.page_ptr (resized b (round8 new.size)) ys xs,
      );
      reset = λ e. absurd (omega (arith, bytes-eq xs ys b inv));
      mapped = λ a h. ground (
        arith,
        fill-inside w.mem (b.addr + n) 0 d a,
        fill-outside w.mem (b.addr + n) 0 d a,
        mapped a,
      );
      zeroed = λ a h o. elim (Inside-or_outside a b) [
        | inl i ↦ fill-inside w.mem (b.addr + n) 0 d a (omega (arith, rest a o)) (omega arith)
        | inr u ↦
            fill-outside w.mem (b.addr + n) 0 d a (omega arith)
            ∙ zeroed a h (Outside-middle w.alloc.page.page_ptr b ys a xs u (rest a o).1)
      ];
    }
      where
        n : ℕ
        n = round8 new.size

        d : ℕ
        d = b.size - n

        rest :
            (a : ℕ)
            → Outside a (xs ++ resized b n ∷ ys)
            → ((a < b.addr) ⊎ (b.addr + n ≤ a)) × Outside a (xs ++ ys)
        rest a o = Outside-middle_inv w.alloc.page.page_ptr (resized b n) ys a xs o

    pub shrink_in_place-IsResized :
        b.addr % new.align ≡ 0
        → IsResized xs ys b new new.size w
            (slice b.addr (round8 new.size))
            (shrunk w b (round8 new.size))
    shrink_in_place-IsResized aligned = record {
      placed = inl (refl, shrunk-Inv);
      large = omega arith;
      rounded = refl;
      aligned = aligned;
      contents = λ i h. fill-outside w.mem (b.addr + n) 0 d (b.addr + i) (inl (omega arith));
      grown_zero = λ i h k. absurd (omega arith);
      wiped = λ a i o.
          fill-inside w.mem (b.addr + n) 0 d a (omega (arith, not-Inside a (resized b n) o))
            (omega arith);
      others = λ a o p.
          fill-outside w.mem (b.addr + n) 0 d a
            (omega (arith, not-Inside a (resized b n) p, not-Inside a b o));
      same_page = refl;
      offset = ground arith;
    }
      where
        n : ℕ
        n = round8 new.size

        d : ℕ
        d = b.size - n
