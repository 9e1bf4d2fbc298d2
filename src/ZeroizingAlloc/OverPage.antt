-- ===== src/ZeroizingAlloc/OverPage.antt =====
-- The wrapper of src/zeroizing_alloc.rs around the allocator of src/sec_alloc.rs.
use mathlib.Core.Path.{subst}
use secmem_alloc.Base.{ℕ, ◌≤◌, ◌≡◌, inl, inr, refl, ◌∙◌, sym, fun_ext, arith}
use secmem_alloc.Memory.{Memory, fill}
use secmem_alloc.Zeroize.Wipe.{zeroize_mem-done}
use secmem_alloc.Layout.{Layout, IsLayout}
use secmem_alloc.SecAlloc.{Sec, allocate, allocate_zeroed}
use secmem_alloc.SecAlloc.Resize.{deallocate}
use secmem_alloc.SecAlloc.Blocks.{Blocks}
use secmem_alloc.SecAlloc.Members.{IsIn-split}
use secmem_alloc.SecAlloc.Invariant.{Inv}
use secmem_alloc.SecAlloc.Deallocate.{deallocate-eq}
use secmem_alloc.SecAlloc.Refine.{sec_allocator}
use secmem_alloc.SecAlloc.Refine.Allotted.{Live, lent, writable}
use secmem_alloc.SecAlloc.Empty.{deallocate_empty}
use secmem_alloc.Traits.{WritesIn-fill}
use secmem_alloc.ZeroizingAlloc.{ZeroizeAlloc, inner, outer, rewrap}
use secmem_alloc.ZeroizingAlloc
use secmem_alloc.ZeroizingAlloc.Wiped.{valid_layout-done}

-- To wipe a part first makes no difference to a wipe.
fill-fill :
    (m : Memory) (p small large : ℕ)
    → small ≤ large
    → fill (fill m p 0 small) p 0 large ≡ fill m p 0 large
unfolding fill
fill-fill m p small large le = fun_ext λ a. ground arith

fill_nothing : (m : Memory) (p : ℕ) → fill m p 0 0 ≡ m
unfolding fill
fill_nothing m p = fun_ext λ a. ground arith

-- The memory after the wipe of the wrapper.
abbrev wiped : Sec → ℕ → Layout → Sec
wiped w p l = record w { mem = fill w.mem p 0 l.size }

-- A block that is wiped before it is given back is given back in the same way.
deallocate-wiped :
    (bs : Blocks) (w : Sec) (p : ℕ) (l : Layout)
    → Inv bs w
    → Live bs p l
    → deallocate p l (wiped w p l) ≡ deallocate p l w
deallocate-wiped bs w p l inv (lay, inl (e, pos)) =
    deallocate_empty (wiped w p l) p l e
    ∙ rw e (rw (fill_nothing w.mem p) refl)
    ∙ sym (deallocate_empty w p l e)
deallocate-wiped bs w p l inv (lay, inr (b, i, e, fits)) =
    let (xs, ys, split) = IsIn-split b bs i in
    let after : Inv bs (wiped w b.addr l) =
      writable bs w b.addr l _ inv (lay, inr (b, i, refl, fits)) (WritesIn-fill w.mem b.addr l) in
    let ran = deallocate-eq xs ys b (subst (λ r. Inv r w) split inv) l fits in
    let ran' = deallocate-eq xs ys b (subst (λ r. Inv r (wiped w b.addr l)) split after) l fits in
    subst (λ (x : ℕ). deallocate x l (wiped w x l) ≡ deallocate x l w) e
      (ran' ∙ rw (fill-fill w.mem b.addr l.size b.size (omega arith)) (sym ran))

-- Around the allocator over a page the wrapper makes no difference: under the invariant,
-- `allocate` and `allocate_zeroed` for a valid layout and `deallocate` of a live block have the
-- same outcome as without it, the whole memory included.
pub over_page-eq :
    (bs : Blocks) (w : Sec) (p : ℕ) (l new : Layout)
    → Inv bs w
    → Live bs p l
    → IsLayout new
    → (ZeroizingAlloc.allocate sec_allocator new (outer w) ≡ rewrap (allocate new w))
      × (ZeroizingAlloc.allocate_zeroed sec_allocator new (outer w)
          ≡ rewrap (allocate_zeroed new w))
      × (ZeroizingAlloc.deallocate sec_allocator p l (outer w) ≡ rewrap (deallocate p l w))
unfolding ZeroizingAlloc.allocate ZeroizingAlloc.allocate_zeroed ZeroizingAlloc.deallocate
over_page-eq bs w p l new inv live lay = (
  rw (valid_layout-done new (outer w) lay) refl,
  rw (valid_layout-done new (outer w) lay) refl,
  rw
      (
        valid_layout-done l (outer w) live.0,
        zeroize_mem-done p l.size (outer w) (lent bs w p l inv live).mapped,
        deallocate-wiped bs w p l inv live,
      )
      refl,
)
