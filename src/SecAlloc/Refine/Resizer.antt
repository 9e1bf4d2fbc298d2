-- ===== src/SecAlloc/Refine/Resizer.antt =====
-- `grow` and `shrink` of src/sec_alloc.rs and the contract of `Allocator`.
use mathlib.Core.Path.{subst}
use native.Mathlib.Decide.{ℕ_discrete}
use native.Mathlib.Nat.{mod_self}
use secmem_alloc.Base.{ℕ, ◌≤◌, ◌<◌, ◌≡◌, inl, inr, refl, sym, arith, Outcome, ◌∷◌, ◌++◌, []}
use secmem_alloc.Memory.Ranges.{fill-outside}
use secmem_alloc.Util.Align.{pos_of_power}
use secmem_alloc.Layout.{Layout, IsLayout}
use secmem_alloc.Traits.Resizer.{IsResizedTo, ResizesTo, IsResizer, IsNew-IsResizedTo}
use secmem_alloc.SecAlloc.{Sec, SliceResult}
use secmem_alloc.SecAlloc.Resize.{grow, shrink}
use secmem_alloc.SecAlloc.Blocks.{Block, Blocks, not-Inside}
use secmem_alloc.SecAlloc.Members.{IsIn-split}
use secmem_alloc.SecAlloc.Invariant.{Inv}
use secmem_alloc.SecAlloc.Allocate.{slice}
use secmem_alloc.SecAlloc.Deallocate.{Fits, freed, freed-Inv}
use secmem_alloc.SecAlloc.Fresh.{block}
use secmem_alloc.SecAlloc.Move.{Moves}
use secmem_alloc.SecAlloc.Contract.{grow-Moves, shrink-Moves, shrink_empty}
use secmem_alloc.SecAlloc.Empty.{grow_from_empty, shrink_from_empty}
use secmem_alloc.SecAlloc.Refine.{kept_others}
use secmem_alloc.SecAlloc.Refine.Allotted.{Live}
use secmem_alloc.SecAlloc.Refine.Issue.{allocs, empty-IsNew}
use secmem_alloc.SecAlloc.Refine.Placed.{placed-IsResizedTo}

-- `b` is live, with `xs` above it and `ys` below.
module _ (xs ys : Blocks) (b : Block) {w : Sec} (inv : Inv (xs ++ b ∷ ys) w) (old new : Layout)
    (fits : Fits old b) (lay : IsLayout new) where
  resized-ResizesTo :
      (count : ℕ) (o : Outcome (SliceResult × Sec))
      → 0 < new.size
      → Moves xs ys b new count w o
      → ResizesTo Inv Live count b.addr old new (xs ++ b ∷ ys) w o
  resized-ResizesTo count o pos (inl (s, w', ran, r)) = elim r.placed [
    | inl (same, inv') ↦ inl (
      s,
      xs ++ block s ∷ ys,
      w',
      ran,
      placed-IsResizedTo xs ys b inv old new fits lay count w' s xs ys pos (λ c i. i) inv' r,
    )
    | inr (fresh, inv') ↦ inl (
      s,
      block s ∷ (xs ++ ys),
      w',
      ran,
      placed-IsResizedTo xs ys b inv old new fits lay count w' s [] (xs ++ ys) pos (λ c i. i) inv'
          r,
    )
  ]
  resized-ResizesTo count o pos (inr (ran, full)) = inr (w, ran, inv, λ q k live a x y. refl)

  -- Of a block that is resized to an empty one, nothing is left.
  emptied-IsResizedTo :
      new.size ≡ 0
      → IsResizedTo Inv Live new.size b.addr old new
          (xs ++ b ∷ ys)
          w
          (slice new.align 0)
          (xs ++ ys)
          (freed w b)
  emptied-IsResizedTo e = record {
    ready = freed-Inv xs ys b inv;
    live = λ k lay_k same from to. (lay_k, inl (omega arith, pos_of_power lay.power));
    large = omega arith;
    aligned = mod_self new.align;
    contents = λ i h. absurd (omega arith);
    others =
        kept_others xs ys b inv (freed w b) b.addr old
          (λ a o. fill-outside w.mem b.addr 0 b.size a (not-Inside a b o)) refl fits;
    separate = λ q k live sep. inl refl;
  }

  block_grows :
      old.size ≤ new.size
      → ResizesTo Inv Live old.size b.addr old new (xs ++ b ∷ ys) w (grow b.addr old new w)
  block_grows le =
      resized-ResizesTo old.size (grow b.addr old new w) (omega arith)
        (grow-Moves xs ys b inv old new fits lay le)

  block_shrinks :
      new.size ≤ old.size
      → ResizesTo Inv Live new.size b.addr old new (xs ++ b ∷ ys) w (shrink b.addr old new w)
  block_shrinks le = elim (ℕ_discrete new.size 0) [
    | yes e ↦ inl (
      slice new.align 0,
      xs ++ ys,
      freed w b,
      shrink_empty xs ys b inv old new fits lay e,
      emptied-IsResizedTo e,
    )
    | no some_size ↦
        resized-ResizesTo new.size (shrink b.addr old new w) (omega arith)
          (shrink-Moves xs ys b inv old new fits lay le (omega arith))
  ]

-- A live block that is not empty is a member of the list.
module _ (bs : Blocks) (w : Sec) (p : ℕ) (old new : Layout) (inv : Inv bs w)
    (lay : IsLayout new) where
  grows :
      Live bs p old
      → old.size ≤ new.size
      → ResizesTo Inv Live old.size p old new bs w (grow p old new w)
  grows (lay_old, inl (e, pos)) le =
      subst (λ o. ResizesTo Inv Live old.size p old new bs w o)
        (sym (grow_from_empty w p old e new))
        (elim (allocs bs w new inv lay) [
          | inl (s, bs', w', ran, found, zeros) ↦
              inl (
                s,
                bs',
                w',
                ran,
                IsNew-IsResizedTo Inv Live old.size p old new bs bs' w w' s e found,
              )
          | inr failed ↦ inr failed
        ])
  grows (lay_old, inr (b, i, at, fits)) le =
      let (xs, ys, split) = IsIn-split b bs i in
      subst (λ (q : ℕ). ResizesTo Inv Live old.size q old new bs w (grow q old new w)) at
        (subst (λ cs. ResizesTo Inv Live old.size b.addr old new cs w (grow b.addr old new w))
          (sym split) (block_grows xs ys b (subst (λ cs. Inv cs w) split inv) old new fits lay le))

  shrinks :
      Live bs p old
      → new.size ≤ old.size
      → ResizesTo Inv Live new.size p old new bs w (shrink p old new w)
  shrinks (lay_old, inl (e, pos)) le =
      let none : new.size ≡ 0 = omega arith in
      inl (
        slice new.align 0,
        bs,
        w,
        shrink_from_empty w p old e new lay none,
        IsNew-IsResizedTo Inv Live new.size p old new bs bs w w (slice new.align 0) none
            (empty-IsNew bs w new inv lay none),
      )
  shrinks (lay_old, inr (b, i, at, fits)) le =
      let (xs, ys, split) = IsIn-split b bs i in
      subst (λ (q : ℕ). ResizesTo Inv Live new.size q old new bs w (shrink q old new w)) at
        (subst (λ cs. ResizesTo Inv Live new.size b.addr old new cs w (shrink b.addr old new w))
          (sym split)
          (block_shrinks xs ys b (subst (λ cs. Inv cs w) split inv) old new fits lay le))

-- `grow` and `shrink` of the allocator keep the contract of `Allocator`: on a live block, an
-- empty one too, and for a valid layout that is not smaller for `grow` and not larger for
-- `shrink`, the call returns a block that is live for each layout that fits it, aligned, large
-- enough and apart from the other live blocks, and that begins with the bytes of the old one
-- that both have; or an error, and then nothing changes for the owners of blocks. All other live
-- blocks keep their bytes.
pub sec_allocator-IsResizer : IsResizer Inv Live grow shrink
sec_allocator-IsResizer = record {
  grows = λ bs w p old new inv live lay le. grows bs w p old new inv lay live le;
  shrinks = λ bs w p old new inv live lay le. shrinks bs w p old new inv lay live le;
}
