-- ===== src/SecAlloc/Empty.antt =====
-- Empty layouts in the calls of src/sec_alloc.rs: they get a dangling pointer, and no memory.
use native.Mathlib.Decide.{ℕ_discrete}
use secmem_alloc.Base.{
  ℕ, ◌≡◌, ◌⊎◌, inl, inr, refl, ◌∷◌, arith, ◌==◌, if◌then◌else◌, Outcome, done, ok, err, eq→==,
  ne→==, le→leb, is_power_of_two-true,
}
use secmem_alloc.Memory.Ranges.{new_unchecked-done}
use secmem_alloc.Util.{Slice}
use secmem_alloc.Util.Align.{pos_of_power}
use secmem_alloc.Layout.{Layout, IsLayout, alloc_error}
use secmem_alloc.SecAlloc.{Sec, SliceResult, allocate, allocate_zerosized}
use secmem_alloc.SecAlloc.Resize.{deallocate, shrink, grow_zeroed, grow}
use secmem_alloc.SecAlloc.Blocks.{Blocks}
use secmem_alloc.SecAlloc.Invariant.{Inv}
use secmem_alloc.SecAlloc.Allocate.{slice}
use secmem_alloc.SecAlloc.Fresh.{block, allocate-IsFresh}
use secmem_alloc.SecAlloc.Contract.{allocate_empty}

-- The live blocks with the one that a slice covers, unless it is empty.
abbrev pub pushed : Blocks → Slice → Blocks
pushed live s = if s.len == 0 then live else block s ∷ live

-- An allocation succeeds and changes no byte, or fails and changes nothing.
abbrev pub Issues : Blocks → Sec → Outcome (SliceResult × Sec) → Type 0
Issues live w o =
    ((s : Slice) × (w' : Sec) × (o ≡ done (ok s, w'))
      × Inv (pushed live s) w'
      × (w'.mem ≡ w.mem)
      × (w'.alloc.page ≡ w.alloc.page))
    ⊎ (o ≡ done (err alloc_error, w))

-- For any layout, the empty one too, `allocate` issues a block.
pub allocate-Issues :
    {bs : Blocks} {w : Sec} (l : Layout) → Inv bs w → IsLayout l → Issues bs w (allocate l w)
allocate-Issues {bs} {w} l inv lay = elim (ℕ_discrete l.size 0) [
  | yes e ↦ inl (slice l.align 0, w, allocate_empty l inv lay e, inv, refl, refl)
  | no some_size ↦ elim (allocate-IsFresh l inv lay (omega arith)) [
    | inl (s, w', ran, f) ↦
        inl (
          s,
          w',
          ran,
          rw (ne→== s.len 0 (omega (arith, f.large))) f.inv,
          f.same_memory,
          f.same_page,
        )
    | inr (ran, full) ↦ inr ran
  ]
]

module _ (w : Sec) (p : ℕ) (old : Layout) (empty : old.size ≡ 0) where
  pub deallocate_empty : deallocate p old w ≡ done (tt, w)
  unfolding deallocate
  deallocate_empty = rw empty refl

  module _ (new : Layout) where
    pub grow_from_empty : grow p old new w ≡ allocate new w
    unfolding grow grow_zeroed
    grow_from_empty = rw (le→leb old.size new.size (omega arith), eq→== old.size 0 empty) refl

    pub shrink_from_empty :
        IsLayout new → new.size ≡ 0 → shrink p old new w ≡ done (ok (slice new.align 0), w)
    unfolding shrink allocate_zerosized
    shrink_from_empty lay e =
        rw
          (
            le→leb new.size old.size (omega arith),
            eq→== new.size 0 e,
            deallocate_empty,
            is_power_of_two-true new.align lay.power,
            new_unchecked-done new.align w (pos_of_power lay.power),
          )
          refl
