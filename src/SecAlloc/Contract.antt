-- ===== src/SecAlloc/Contract.antt =====
-- The contract of `shrink`, `grow` and `deallocate` of src/sec_alloc.rs on a live block, whichever
-- branch they take.
use secmem_alloc.Base.{
  ℕ, ◌+◌, ◌-◌, ◌%◌, ◌≤◌, ◌<◌, ◌≡◌, inl, inr, refl, ◌∙◌, true, false, some, ◌∷◌, ◌++◌, arith, ◌==◌,
  Bool, if◌then◌else◌, pos→==, Bool-cases, eq→==, ==→eq, done, ok, le→leb, is_power_of_two-true,
}
use secmem_alloc.Memory.Ranges.{new_unchecked-done, fill-inside, fill-outside}
use secmem_alloc.Util.Align.{round8, align_up_usize_eight, is_aligned_ptr-eq, pos_of_power}
use secmem_alloc.Layout.{Layout, IsLayout}
use secmem_alloc.SecAlloc.{Sec, allocate, allocate_zerosized}
use secmem_alloc.SecAlloc.Resize.{
  shrink_in_place, realloc_shrink, grow_in_place, realloc_grow, deallocate, shrink, grow_zeroed,
  grow,
}
use secmem_alloc.SecAlloc.Blocks.{Block, Blocks, Inside, not-Inside}
use secmem_alloc.SecAlloc.Invariant.{Inv}
use secmem_alloc.SecAlloc.Allocate.{slice, allocate_zeroed_empty}
use secmem_alloc.SecAlloc.Deallocate.{
  Fits, freed, IsBlock-bounds, check_in_use-done, deallocate-eq, freed-Inv,
}
use secmem_alloc.SecAlloc.Shrink.{
  shrunk, ptr_is_last_allocation-eq, shrink_in_place-eq, shrink_in_place-IsResized,
}
use secmem_alloc.SecAlloc.Move.{Moves, realloc_shrink_lem, realloc_grow_lem}
use secmem_alloc.SecAlloc.Grow.{grow_in_place_lem}

-- Under the invariant, `allocate` of an empty layout returns a dangling pointer at its alignment
-- and length 0, and changes nothing.
pub allocate_empty :
    {bs : Blocks} {w : Sec} (l : Layout)
    → Inv bs w
    → IsLayout l
    → l.size ≡ 0
    → allocate l w ≡ done (ok (slice l.align 0), w)
unfolding allocate
allocate_empty l inv lay e = allocate_zeroed_empty inv l lay e

-- `b` is live, with `xs` above it and `ys` below.
module _ (xs ys : Blocks) (b : Block) {w : Sec} (inv : Inv (xs ++ b ∷ ys) w) where
  -- On a live block, under the invariant and for a layout that fits the block, `deallocate`
  -- returns; the invariant then holds with the block gone, all bytes of the block are 0, no
  -- other byte has changed, and the page is the same.
  pub deallocate-wipes :
      (l : Layout)
      → Fits l b
      → (w' : Sec) × (deallocate b.addr l w ≡ done (tt, w'))
        × Inv (xs ++ ys) w'
        × ((a : ℕ) → Inside a b → w'.mem a ≡ some 0)
        × ((a : ℕ) → ¬ Inside a b → w'.mem a ≡ w.mem a)
        × (w'.alloc.page ≡ w.alloc.page)
  deallocate-wipes l fits = (
    freed w b,
    deallocate-eq xs ys b inv l fits,
    freed-Inv xs ys b inv,
    λ a i. fill-inside w.mem b.addr 0 b.size a i.0 i.1,
    λ a o. fill-outside w.mem b.addr 0 b.size a (not-Inside a b o),
    refl,
  )

  module _ (old new : Layout) (fits : Fits old b) (lay : IsLayout new) where
    -- Which branch `shrink` takes turns on the alignment of the block.
    pub shrink-branch :
        (aligned : Bool)
        → new.size ≤ old.size
        → 0 < new.size
        → (b.addr % new.align == 0) ≡ aligned
        → shrink b.addr old new w
          ≡ (if aligned then shrink_in_place b.addr old new else realloc_shrink b.addr old new) w
    unfolding shrink
    shrink-branch aligned le pos e = rw (
      le→leb new.size old.size le,
      pos→== new.size pos,
      check_in_use-done xs ys b inv,
      is_aligned_ptr-eq b.addr new.align w lay.power,
      e,
    )

    -- On a live block that has the alignment that is asked for, under the invariant and for a
    -- layout that is not empty and at most as large as that of the block, `shrink` cannot fail:
    -- it returns the start of the block and the size rounded up to 8, clears what lies past it
    -- and counts it as free, and moves the top of the stack down if the block is the last.
    pub shrink_aligned :
        new.size ≤ old.size
        → 0 < new.size
        → b.addr % new.align ≡ 0
        → shrink b.addr old new w
          ≡ done (ok (slice b.addr (round8 new.size)), shrunk w b (round8 new.size))
    shrink_aligned le pos aligned =
        shrink-branch true le pos (eq→== _ _ aligned)
        ∙ shrink_in_place-eq xs ys b inv old new fits lay pos le

    -- On a live block, under the invariant and for a layout that is not empty and at most as
    -- large as that of the block, `shrink` resizes the block, keeping its first `new.size()`
    -- bytes and clearing what it gives up; or it fails with nothing changed, and then no new
    -- block for the layout fits between the last allocation and the end of the page.
    pub shrink-Moves :
        new.size ≤ old.size → 0 < new.size → Moves xs ys b new new.size w (shrink b.addr old new w)
    shrink-Moves le pos = elim (Bool-cases (b.addr % new.align == 0)) [
      | inl e ↦ inl (
        slice b.addr (round8 new.size),
        shrunk w b (round8 new.size),
        shrink_aligned le pos (==→eq _ _ e),
        shrink_in_place-IsResized xs ys b inv old new fits lay pos le (==→eq _ _ e),
      )
      | inr e ↦
          rw (shrink-branch false le pos e) (realloc_shrink_lem xs ys b inv old new fits lay pos le)
    ]

    -- On a live block and under the invariant, `shrink` to an empty layout gives the block back
    -- as `deallocate` does, and returns a dangling pointer at the alignment of the layout.
    pub shrink_empty :
        new.size ≡ 0 → shrink b.addr old new w ≡ done (ok (slice new.align 0), freed w b)
    unfolding shrink allocate_zerosized
    shrink_empty e = rw (
      le→leb new.size old.size (omega arith),
      eq→== new.size 0 e,
      deallocate-eq xs ys b inv old fits,
      is_power_of_two-true new.align lay.power,
      new_unchecked-done new.align (freed w b) (pos_of_power lay.power),
    )

    -- Which branch `grow` takes turns on the alignment of the block, and on whether it is the last.
    pub grow-branch :
        (aligned last : Bool)
        → old.size ≤ new.size
        → (b.addr % new.align == 0) ≡ aligned
        → (b.addr - w.alloc.page.page_ptr + b.size == w.alloc.stack_offset) ≡ last
        → grow b.addr old new w
          ≡ (if aligned
                then (if last then grow_in_place b.addr b.size new else realloc_grow b.addr old new)
                else realloc_grow b.addr old new)
              w
    unfolding grow grow_zeroed
    grow-branch aligned last le e e' = ground (
      arith,
      check_in_use-done xs ys b inv,
      is_aligned_ptr-eq b.addr new.align w lay.power,
      align_up_usize_eight old.size w,
      IsBlock-bounds xs ys b inv,
      ptr_is_last_allocation-eq xs ys b inv w.alloc.bytes w.mem,
    )

    -- On a live block, under the invariant and for a layout at least as large as that of the
    -- block, `grow` resizes the block, keeping its first `old.size()` bytes and clearing what
    -- lies past its old end; or it fails with nothing changed, and then no new block for the
    -- layout fits between the last allocation and the end of the page.
    pub grow-Moves : old.size ≤ new.size → Moves xs ys b new old.size w (grow b.addr old new w)
    grow-Moves le = elim (Bool-cases (b.addr % new.align == 0)) [
      | inl e ↦
          elim (Bool-cases (b.addr - w.alloc.page.page_ptr + b.size == w.alloc.stack_offset)) [
            | inl last ↦ rw (grow-branch true true le e last) (
                grow_in_place_lem xs ys b inv new lay (omega arith)
                  (omega (arith, ==→eq _ _ last, IsBlock-bounds xs ys b inv)) old.size (omega arith)
                  (==→eq _ _ e))
            | inr other ↦ rw (grow-branch true false le e other) moved
          ]
      | inr e ↦ rw (grow-branch false _ le e refl) moved
    ]
      where
        moved : Moves xs ys b new old.size w (realloc_grow b.addr old new w)
        moved = realloc_grow_lem xs ys b inv old new fits lay (omega arith) le
