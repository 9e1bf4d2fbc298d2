-- ===== src/SecAlloc/Discreet.antt =====
-- What the allocator of src/sec_alloc.rs lets out of the blocks that it gives back.
use native.Mathlib.Decide.{ℕ_discrete}
use mathlib.Core.Path.{subst, subst₂}
use secmem_alloc.Base.{
  ℕ, ◌+◌, ◌≤◌, ◌<◌, ◌≡◌, ◌⊎◌, inl, inr, refl, ◌∙◌, sym, arith, leb, ◌==◌, if◌then◌else◌, Bool-cases,
  eq→==, ne→==, done, ok, err,
}
use secmem_alloc.Memory.{Memory}
use secmem_alloc.Memory.Ranges.{fill-inside, fill-outside}
use secmem_alloc.Util.Align.{round8}
use secmem_alloc.Layout.{Layout, IsLayout, alloc_error}
use secmem_alloc.SecAlloc.{SecStackSinglePageAlloc, Sec, allocate}
use secmem_alloc.SecAlloc.Resize.{deallocate}
use secmem_alloc.SecAlloc.Blocks.{Block, Blocks, Inside-or_outside}
use secmem_alloc.SecAlloc.Members.{IsIn-split}
use secmem_alloc.SecAlloc.Invariant.{Inv, stack_top, page_end}
use secmem_alloc.SecAlloc.Allocate.{block_addr, slice, claimed}
use secmem_alloc.SecAlloc.Deallocate.{freed, deallocate-eq}
use secmem_alloc.SecAlloc.Exact.{after_allocate, allocate-eq}
use secmem_alloc.SecAlloc.Empty.{deallocate_empty}
use secmem_alloc.SecAlloc.Refine.{sec_allocator}
use secmem_alloc.SecAlloc.Refine.Allotted.{Live}
use secmem_alloc.Traits.Discreet.{Beyond, SameBut, SameOutcome, IsDiscreet}

-- The two states, with one state of the allocator, and the addresses at which their memories differ.
module _ (a : SecStackSinglePageAlloc) (m m' : Memory) (D : ℕ → Type 0) where
  abbrev one : Sec
  one = record { alloc = a; mem = m }

  abbrev other : Sec
  other = record { alloc = a; mem = m' }

  -- `allocate` does not look at the memory, and does not change it.
  same_after :
      (l : Layout)
      → SameBut D m m'
      → SameOutcome D (done (after_allocate l one)) (done (after_allocate l other))
  same_after l same = elim (Bool-cases (l.size == 0)) [
    | inl z ↦ (ok (slice l.align 0), one, other, rw z refl, rw z refl, refl, same)
    | inr some_size ↦
        elim (Bool-cases
          (leb (block_addr (stack_top one) l.align + round8 l.size) (page_end one))) [
            | inl room ↦ (
              ok (slice (block_addr (stack_top one) l.align) (round8 l.size)),
              claimed one (block_addr (stack_top one) l.align) (round8 l.size),
              claimed other (block_addr (stack_top one) l.align) (round8 l.size),
              rw (some_size, room) refl,
              rw (some_size, room) refl,
              refl,
              same,
            )
            | inr full ↦ (
              err alloc_error,
              one,
              other,
              rw (some_size, full) refl,
              rw (some_size, full) refl,
              refl,
              same,
            )
          ]
  ]

  -- A block that is given back is wiped, so what differs in it does so no longer.
  same_freed :
      (b : Block)
      → ((x : ℕ) → ¬ D x → (x < b.addr) ⊎ (b.addr + b.size ≤ x) → m x ≡ m' x)
      → SameBut D (freed one b).mem (freed other b).mem
  same_freed b same x out = elim (Inside-or_outside x b) [
    | inl i ↦
        fill-inside m b.addr 0 b.size x i.0 i.1 ∙ sym (fill-inside m' b.addr 0 b.size x i.0 i.1)
    | inr o ↦
        fill-outside m b.addr 0 b.size x o
        ∙ same x out o
        ∙ sym (fill-outside m' b.addr 0 b.size x o)
  ]

-- What a call of `deallocate` does, by the block that is at the pointer.
unfoldable after_deallocate : ℕ → Layout → Sec → Sec
after_deallocate p l w =
    if l.size == 0 then w else freed w (record { addr = p; size = round8 l.size })

deallocate-live :
    (bs : Blocks) (w : Sec) (p : ℕ) (l : Layout)
    → Inv bs w
    → Live bs p l
    → deallocate p l w ≡ done (tt, after_deallocate p l w)
unfolding after_deallocate
deallocate-live bs w p l inv (lay, inl (e, pos)) =
    deallocate_empty w p l e ∙ rw (eq→== l.size 0 e) refl
deallocate-live bs w p l inv (lay, inr (b, i, at, fits)) =
    let (xs, ys, split) = IsIn-split b bs i in
    deallocate-at at fits.1 (deallocate-eq xs ys b (subst (λ cs. Inv cs w) split inv) l fits)
    ∙ rw (ne→== l.size 0 (λ z. omega arith)) refl
  where
    deallocate-at :
        b.addr ≡ p
        → round8 l.size ≡ b.size
        → deallocate b.addr l w ≡ done (tt, freed w b)
        → deallocate p l w ≡ done (tt, freed w (record { addr = p; size = round8 l.size }))
    deallocate-at at size ran =
        subst₂ (λ (q n : ℕ). deallocate q l w ≡ done (tt, freed w (record { addr = q; size = n })))
          at (sym size) ran

-- Both calls do the same to the two states.
module _ (a : SecStackSinglePageAlloc) (m m' : Memory) (D : ℕ → Type 0) where
  same_deallocated :
      (p : ℕ) (l : Layout)
      → ((x : ℕ) → ¬ D x → Beyond p l x → m x ≡ m' x)
      → SameOutcome D
          (done (tt, after_deallocate p l (one a m m' D)))
          (done (tt, after_deallocate p l (other a m m' D)))
  unfolding after_deallocate
  same_deallocated p l same = elim (ℕ_discrete l.size 0) [
    | yes z ↦ (
      tt,
      one a m m' D,
      other a m m' D,
      rw (eq→== l.size 0 z) refl,
      rw (eq→== l.size 0 z) refl,
      refl,
      λ x out. same x out (omega arith),
    )
    | no some_size ↦
        let b : Block = record { addr = p; size = round8 l.size } in
        (
          tt,
          freed (one a m m' D) b,
          freed (other a m m' D) b,
          rw (ne→== l.size 0 some_size) refl,
          rw (ne→== l.size 0 some_size) refl,
          refl,
          same_freed a m m' D b (λ x out o. same x out (omega (arith, o))),
        )
  ]

-- The second of two states that differ in the memory only, as the lemmas above take it.
abbrev beside : Sec → SecStackSinglePageAlloc → Sec
beside w' a = record { alloc = a; mem = w'.mem }

allocates :
    (D : ℕ → Type 0) (bs bs' : Blocks) (w w' : Sec) (l : Layout)
    → Inv bs w
    → Inv bs' w'
    → w.alloc ≡ w'.alloc
    → SameBut D w.mem w'.mem
    → IsLayout l
    → SameOutcome D (allocate l w) (allocate l w')
allocates D bs bs' w w' l inv inv' state same lay =
    rw (allocate-eq l inv lay, allocate-eq l inv' lay)
      (subst
        (λ a. SameOutcome D (done (after_allocate l w)) (done (after_allocate l (beside w' a))))
        state (same_after w.alloc w.mem w'.mem D l same))

-- In two states in which the invariant holds, with the same state of the allocator and memories
-- that differ in some bytes of live blocks only, `allocate` and `allocate_zeroed` for a valid
-- layout return the same, and leave such states; and so does `deallocate` of a live block, when
-- the memories differ in that block too, within the size of the layout.
pub sec_allocator-IsDiscreet : IsDiscreet Inv Live Beyond sec_allocator
unfolding allocate
sec_allocator-IsDiscreet = record {
  allocates = λ D bs bs' w w' l inv inv' hidden hidden' state same lay.
      allocates D bs bs' w w' l inv inv' state same lay;
  allocates_zeroed = λ D bs bs' w w' l inv inv' hidden hidden' state same lay.
      allocates D bs bs' w w' l inv inv' state same lay;
  deallocates = λ D bs bs' w w' p l inv inv' live live' rest rest' state same.
      rw (deallocate-live bs w p l inv live, deallocate-live bs' w' p l inv' live')
        (subst
          (λ a.
            SameOutcome D (done (tt, after_deallocate p l w))
              (done (tt, after_deallocate p l (beside w' a))))
          state (same_deallocated w.alloc w.mem w'.mem D p l same));
}
