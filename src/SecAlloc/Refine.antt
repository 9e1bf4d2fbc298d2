-- ===== src/SecAlloc/Refine.antt =====
-- The allocator of src/sec_alloc.rs and the contract of `Allocator`. What is allocated is the list of
-- live blocks.
pub mod Allotted
pub mod Issue
pub mod Placed
pub mod Resizer
use mathlib.Core.Path.{subst}
use native.Mathlib.Decide.{dec_lt, ℕ_discrete}
use native.Mathlib.Nat.{mod_self}
use secmem_alloc.Base.{
  ℕ, ◌+◌, ◌%◌, ◌≤◌, ◌<◌, ◌≡◌, ◌⊎◌, inl, inr, refl, sym, ◌∙◌, ap, arith, done, ok, err, ◌∷◌, ◌++◌,
  some, pure,
}
use secmem_alloc.Memory.{Memory, is_mapped}
use secmem_alloc.Util.{Slice}
use secmem_alloc.Util.Align.{round8, pos_of_power}
use secmem_alloc.Layout.{Layout, IsLayout}
use secmem_alloc.Traits.{Allocator, Apart, WritesIn, SameBytes}
use secmem_alloc.Traits.Contract.{
  IsLent, Separate, IsNew, Allocates, AllocatesZeroed, KeepsOthers, IsAllocator,
}
use secmem_alloc.SecAlloc.{Sec, SecStackSinglePageAlloc, allocate, allocate_zeroed}
use secmem_alloc.SecAlloc.Resize.{deallocate}
use secmem_alloc.SecAlloc.Blocks.{Block, Blocks, Inside, Outside, Outside-others, not-Inside}
use secmem_alloc.SecAlloc.Empty.{deallocate_empty}
use secmem_alloc.SecAlloc.Members.{IsIn, IsIn-split, IsIn-remove, Outside-IsIn}
use secmem_alloc.SecAlloc.Invariant.{stack_top, Inv, Inv-mem, InPage}
use secmem_alloc.SecAlloc.Allocate.{slice}
use secmem_alloc.SecAlloc.Deallocate.{Fits, IsBlock-bounds}
use secmem_alloc.SecAlloc.Fresh.{block, IsFresh, allocate-IsFresh}
use secmem_alloc.SecAlloc.Contract.{allocate_empty, deallocate-wipes}
use secmem_alloc.SecAlloc.Refine.Allotted.{IsAt, Live, lent, writable}
use secmem_alloc.SecAlloc.Refine.Issue.{allocs}

-- The methods of the trait that the allocator defines and that have no default.
abbrev pub sec_allocator : Allocator SecStackSinglePageAlloc
sec_allocator = record {
  allocate = allocate;
  allocate_zeroed = allocate_zeroed;
  deallocate = deallocate;
}

-- Two blocks of the list share no byte, so the others are kept when one is wiped.
module _ (xs ys : Blocks) (b : Block) {w : Sec} (inv : Inv (xs ++ b ∷ ys) w) where
  pub off_block : (c : Block) → IsIn c (xs ++ ys) → (a : ℕ) → Inside a c → ¬ Inside a b
  off_block c i a h k = omega (
    arith,
    Outside-IsIn a c (xs ++ ys)
        (Outside-others w.alloc.page.page_ptr b ys (stack_top w) a xs inv.stacked k) i,
  )

  pub kept_others :
      (w' : Sec) (p : ℕ) (l : Layout)
      → ((a : ℕ) → ¬ Inside a b → w'.mem a ≡ w.mem a)
      → b.addr ≡ p
      → Fits l b
      → KeepsOthers Inv Live p l (xs ++ b ∷ ys) w (xs ++ ys) w'
  kept_others w' p l others e fits q k (lay, inl empty) apart =
      ((lay, inl empty), λ a x y. absurd (omega arith))
  kept_others w' p l others e fits q k (lay, inr (c, i, at, fits_c)) apart =
      elim (IsIn-remove c b xs ys i) [
        | inl same ↦ absurd (omega (arith, ap (λ (x : Block). x.addr) same, apart))
        | inr j ↦ ((lay, inr (c, j, at, fits_c)), λ a x y. others a (off_block c j a (omega arith)))
      ]

deallocs :
    (bs : Blocks) (w : Sec) (p : ℕ) (l : Layout)
    → Inv bs w
    → Live bs p l
    → (bs' : Blocks) × (w' : Sec) × (deallocate p l w ≡ done (tt, w'))
      × Inv bs' w'
      × KeepsOthers Inv Live p l bs w bs' w'
deallocs bs w p l inv (lay, inl (e, pos)) =
    (bs, w, deallocate_empty w p l e, inv, λ q k live apart. (live, λ a x y. refl))
deallocs bs w p l inv (lay, inr (b, i, e, fits)) =
    let (xs, ys, split) = IsIn-split b bs i in
    let inv' = subst (λ r. Inv r w) split inv in
    let (w', ran, after, wiped, others, page) = deallocate-wipes xs ys b inv' l fits in
    (
      xs ++ ys,
      w',
      subst (λ (x : ℕ). deallocate x l w ≡ done (tt, w')) e ran,
      after,
      subst (λ r. KeepsOthers Inv Live p l r w (xs ++ ys) w') (sym split)
          (kept_others xs ys b inv' w' p l others e fits),
    )

-- The allocator keeps the contract of `Allocator`, with the invariant, and a block counted as
-- live for each layout that fits it, the empty ones included: `allocate` and `allocate_zeroed`
-- return a block that is aligned, large enough and apart from every live block, and zeroed, or
-- an error; `deallocate` of a live block returns; and no call changes a byte of a live block,
-- but the one it frees.
pub sec_allocator-IsAllocator : IsAllocator Inv Live sec_allocator
unfolding allocate
sec_allocator-IsAllocator = record {
  lent = lent;
  writable = writable;
  allocs = λ bs w l inv lay. elim (allocs bs w l inv lay) [
    | inl (s, bs', w', ran, new, zeros) ↦ inl (s, bs', w', ran, new)
    | inr failed ↦ inr failed
  ];
  allocs_zeroed = allocs;
  deallocs = deallocs;
}
