-- ===== src/SecAlloc/Exact.antt =====
-- What `allocate`, `shrink` and `grow` of src/sec_alloc.rs return and change, on every branch.
use secmem_alloc.Base.{
  ℕ, ◌+◌, ◌-◌, ◌%◌, ◌≤◌, ◌<◌, ◌≡◌, inl, inr, refl, ◌∙◌, true, false, ◌∷◌, ◌++◌, arith, leb, ◌==◌,
  if◌then◌else◌, Bool-cases, ==→eq, ne→==, eq→==, le→leb, lt→leb, done, ok, err, ◌>>=◌,
}
use native.Mathlib.Decide.{ℕ_discrete, dec_le}
use secmem_alloc.Util.Align.{round8}
use secmem_alloc.Layout.{Layout, IsLayout, alloc_error}
use secmem_alloc.SecAlloc.{Sec, SliceResult, allocate}
use secmem_alloc.SecAlloc.Resize.{move, realloc_shrink, realloc_grow, shrink, grow}
use secmem_alloc.SecAlloc.Blocks.{Block, Blocks}
use secmem_alloc.SecAlloc.Invariant.{Inv, stack_top, page_end}
use secmem_alloc.SecAlloc.Allocate.{block_addr, slice, claimed, allocated, allocate_zeroed-eq}
use secmem_alloc.SecAlloc.Deallocate.{Fits, IsBlock-bounds, freed}
use secmem_alloc.SecAlloc.Fresh.{IsFresh, IsFresh-claimed}
use secmem_alloc.SecAlloc.Shrink.{shrunk}
use secmem_alloc.SecAlloc.Grow.{grown, grow_in_place-eq}
use secmem_alloc.SecAlloc.Move.{copied, move-eq}
use secmem_alloc.SecAlloc.Contract.{
  allocate_empty, shrink_aligned, shrink_empty, shrink-branch, grow-branch,
}

-- The outcome of `allocate`.
abbrev pub after_allocate : Layout → Sec → SliceResult × Sec
after_allocate l w = if l.size == 0 then (ok (slice l.align 0), w) else allocated l w

pub allocate-eq :
    {bs : Blocks} {w : Sec} (l : Layout)
    → Inv bs w
    → IsLayout l
    → allocate l w ≡ done (after_allocate l w)
unfolding allocate
allocate-eq l inv lay = elim (ℕ_discrete l.size 0) [
  | yes z ↦ allocate_empty l inv lay z ∙ rw (eq→== l.size 0 z) refl
  | no some_size ↦ allocate_zeroed-eq inv l lay (omega arith) ∙ rw (ne→== l.size 0 some_size) refl
]

-- The block at a new place, if there is room.
abbrev pub moved : Block → Layout → ℕ → Sec → SliceResult × Sec
moved b new count w =
    let p = block_addr (stack_top w) new.align in
    if leb (p + round8 new.size) (page_end w)
    then (
      ok (slice p (round8 new.size)),
      freed (copied (claimed w p (round8 new.size)) b.addr p count) b,
    )
    else (err alloc_error, w)

-- The outcome of `shrink`.
abbrev pub after_shrink : Block → Layout → Sec → SliceResult × Sec
after_shrink b new w =
    if new.size == 0
    then (ok (slice new.align 0), freed w b)
    else if b.addr % new.align == 0
    then (ok (slice b.addr (round8 new.size)), shrunk w b (round8 new.size))
    else moved b new new.size w

-- The block at its place, if there is room.
abbrev pub stretched : Block → Layout → Sec → SliceResult × Sec
stretched b new w =
    if leb (b.addr + round8 new.size) (page_end w)
    then (ok (slice b.addr (round8 new.size)), grown w b (round8 new.size))
    else (err alloc_error, w)

-- The outcome of `grow`.
abbrev pub after_grow : Block → Layout → Layout → Sec → SliceResult × Sec
after_grow b old new w =
    if b.addr % new.align == 0
    then (if b.addr - w.alloc.page.page_ptr + b.size == w.alloc.stack_offset
        then stretched b new w
        else moved b new old.size w)
    else moved b new old.size w

module _ (xs ys : Blocks) (b : Block) {w : Sec} (inv : Inv (xs ++ b ∷ ys) w) (old new : Layout)
    (fits : Fits old b) (lay : IsLayout new) where
  moved-eq :
      (count : ℕ)
      → 0 < new.size
      → count ≤ b.size
      → count ≤ new.size
      → (allocate new >>= move b.addr old count) w ≡ done (moved b new count w)
  unfolding allocate
  moved-eq count pos in_old in_new = elim (dec_le (p + n) (page_end w)) [
    | yes room ↦
        let fresh : IsFresh (xs ++ b ∷ ys) new w (slice p n) (claimed w p n) =
          IsFresh-claimed new inv lay pos room in
        rw
          (
            allocate_zeroed-eq inv new lay pos,
            le→leb (p + n) (page_end w) room,
            move-eq xs ys b {w = w} old new count fresh in_old (omega (arith, fresh.large)) fits,
          )
          refl
    | no full ↦
        unfold move in
        rw (allocate_zeroed-eq inv new lay pos, lt→leb (p + n) (page_end w) (omega arith)) refl
  ]
    where
      p : ℕ
      p = block_addr (stack_top w) new.align

      n : ℕ
      n = round8 new.size

  -- On a live block, under the invariant and for a layout at most as large as that of the block,
  -- `shrink` has the outcome that `after_shrink` computes: for an empty layout the block is
  -- given back and a dangling pointer is returned, where the doc comment of the allocator has an
  -- error; on a block that has the alignment it is cut at its place, the rest wiped, and the top
  -- of the stack moved down if it is the last; on another one it is copied to a new place and
  -- given back, if there is room, and otherwise an error is returned and nothing changes.
  pub shrink-eq : new.size ≤ old.size → shrink b.addr old new w ≡ done (after_shrink b new w)
  unfolding realloc_shrink
  shrink-eq le = elim (ℕ_discrete new.size 0) [
    | yes z ↦ shrink_empty xs ys b inv old new fits lay z ∙ rw (eq→== new.size 0 z) refl
    | no some_size ↦ elim (Bool-cases (b.addr % new.align == 0)) [
      | inl e ↦
          shrink_aligned xs ys b inv old new fits lay le (omega arith) (==→eq _ _ e)
          ∙ rw (ne→== new.size 0 some_size, e) refl
      | inr e ↦
          shrink-branch xs ys b inv old new fits lay false le (omega arith) e
          ∙ rw (le→leb new.size old.size le, ne→== new.size 0 some_size, e)
              (moved-eq new.size (omega arith) (omega arith) (omega arith))
    ]
  ]

  -- On a live block, under the invariant and for a layout at least as large as that of the
  -- block, `grow` has the outcome that `after_grow` computes: the last block, if it has the
  -- alignment, is extended at its place, and any other one is copied to a new place and given
  -- back, if there is room; otherwise an error is returned and nothing changes.
  pub grow-eq : old.size ≤ new.size → grow b.addr old new w ≡ done (after_grow b old new w)
  unfolding realloc_grow
  grow-eq le = elim (Bool-cases (b.addr % new.align == 0)) [
    | inl e ↦ elim (Bool-cases (b.addr - w.alloc.page.page_ptr + b.size == w.alloc.stack_offset)) [
      | inl last ↦
          grow-branch xs ys b inv old new fits lay true true le e last
          ∙ rw (e, last)
              (grow_in_place-eq xs ys b inv new lay (omega arith)
                (omega (arith, ==→eq _ _ last, IsBlock-bounds xs ys b inv)))
      | inr other ↦
          grow-branch xs ys b inv old new fits lay true false le e other
          ∙ rw (e, other, le→leb old.size new.size le)
              (moved-eq old.size (omega arith) (omega arith) (omega arith))
    ]
    | inr e ↦
        grow-branch xs ys b inv old new fits lay false _ le e refl
        ∙ rw (e, le→leb old.size new.size le)
            (moved-eq old.size (omega arith) (omega arith) (omega arith))
  ]
