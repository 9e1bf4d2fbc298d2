-- ===== src/SecAlloc/Misuse.antt =====
-- Calls of src/sec_alloc.rs that break the contract of the allocator interface in a way that its debug
-- assertions notice.
use native.Mathlib.Decide.{ℕ_discrete}
use secmem_alloc.Base.{
  ℕ, ◌≤◌, ◌<◌, ◌≡◌, ◌⊎◌, refl, [], arith, done, fault, panic, usize_mod, add_usize-done, sub_usize,
  lt→leb, pos→==,
}
use secmem_alloc.Memory.{fill}
use secmem_alloc.Util.Align.{round8, align_up_usize_eight}
use secmem_alloc.Zeroize.Wipe.{zeroize_mem-done}
use secmem_alloc.Layout.{Layout}
use secmem_alloc.Page.{as_ptr}
use secmem_alloc.SecAlloc.{Sec}
use secmem_alloc.SecAlloc.Resize.{check_in_use, rewind, deallocate, shrink, grow_zeroed, grow}
use secmem_alloc.SecAlloc.Invariant.{Inv, stack_top}

check_in_use_panics :
    (w : Sec) (p : ℕ)
    → stack_top w < usize_mod
    → (p < w.alloc.page.page_ptr) ⊎ (stack_top w < p)
    → check_in_use p w ≡ fault panic
unfolding check_in_use as_ptr
check_in_use_panics w p small out =
    ground (arith, add_usize-done w.alloc.page.page_ptr w.alloc.stack_offset w)

check_in_use_passes :
    (w : Sec) (p : ℕ)
    → stack_top w < usize_mod
    → w.alloc.page.page_ptr ≤ p
    → p ≤ stack_top w
    → check_in_use p w ≡ done (tt, w)
unfolding check_in_use as_ptr
check_in_use_passes w p small above below =
    ground (arith, add_usize-done w.alloc.page.page_ptr w.alloc.stack_offset w)

deallocate_outside :
    (w : Sec) (p : ℕ) (l : Layout)
    → stack_top w < usize_mod
    → (p < w.alloc.page.page_ptr) ⊎ (stack_top w < p)
    → 0 < l.size
    → deallocate p l w ≡ fault panic
unfolding deallocate
deallocate_outside w p l small out pos =
    rw (pos→== l.size pos, check_in_use_panics w p small out) refl

-- On an address below the page or above the last allocation, for an old layout that is not empty
-- and any new one, `deallocate`, `shrink` and `grow` all panic.
pub outside_panics :
    (w : Sec) (p : ℕ) (old new : Layout)
    → stack_top w < usize_mod
    → (p < w.alloc.page.page_ptr) ⊎ (stack_top w < p)
    → 0 < old.size
    → (deallocate p old w ≡ fault panic)
      × (shrink p old new w ≡ fault panic)
      × (grow p old new w ≡ fault panic)
unfolding shrink grow grow_zeroed
outside_panics w p old new small out pos = (
  deallocate_outside w p old small out pos,
  ground (arith, check_in_use_panics w p, deallocate_outside w p old),
  ground (arith, check_in_use_panics w p),
)

rewind_panics : (w : Sec) (p size : ℕ) → w.alloc.bytes < size → rewind p size w ≡ fault panic
unfolding rewind sub_usize
rewind_panics w p size h = rw (lt→leb size w.alloc.bytes h) refl

-- Under the invariant with no block alive, `deallocate` of any address panics, for every layout
-- that is not empty and, rounded up to 8, not larger than the page.
pub deallocate_again_panics :
    {w : Sec} (p : ℕ) (l : Layout)
    → Inv [] w
    → 0 < l.size
    → round8 l.size ≤ w.alloc.page.page_size
    → deallocate p l w ≡ fault panic
unfolding deallocate
deallocate_again_panics {w} p l inv pos fits = elim (ℕ_discrete p w.alloc.page.page_ptr) [
  | yes at ↦ ground (
    arith,
    check_in_use_passes w p,
    align_up_usize_eight l.size w,
    zeroize_mem-done p (round8 l.size) w (λ a x y. inv.mapped a (omega arith)),
    rewind_panics (record w { mem = fill w.mem p 0 (round8 l.size) }) p (round8 l.size),
  )
  | no off ↦
      deallocate_outside w p l (omega (arith, inv.page, inv.offset_in_page))
        (ground (arith, inv.reset, inv.counted)) pos
]
