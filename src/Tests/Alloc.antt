-- ===== src/Tests/Alloc.antt =====
-- The theorems on the allocator of src/sec_alloc.rs, on states of a run on one page.
use secmem_alloc.Base.{
  ℕ, ◌≡◌, ◌≢◌, ◌⊎◌, refl, some, [], ◌∷◌, arith, done, ok, err, fault, abort, panic,
}
use secmem_alloc.Util.{Slice}
use secmem_alloc.Layout.{alloc_error}
use secmem_alloc.SecAlloc.{Sec, allocate, consistency_check, drop, drop_no_std}
use secmem_alloc.SecAlloc.Resize.{deallocate, shrink, grow}
use secmem_alloc.SecAlloc.Blocks.{Inside, Outside}
use secmem_alloc.SecAlloc.Invariant.{Inv, InPage}
use secmem_alloc.SecAlloc.Allocate.{slice}
use secmem_alloc.SecAlloc.Fresh.{IsFresh, NoRoom, allocate-IsFresh}
use secmem_alloc.SecAlloc.Move.{Moves}
use secmem_alloc.SecAlloc.Exact.{after_shrink, after_grow, shrink-eq, grow-eq}
use secmem_alloc.SecAlloc.Contract.{deallocate-wipes, shrink-Moves, grow-Moves}
use secmem_alloc.SecAlloc.Reuse.{deallocate-allocate}
use secmem_alloc.SecAlloc.Client.{grow_request}
use secmem_alloc.SecAlloc.Client.Isolation.{SameOutside, Reach-SameOutside}
use secmem_alloc.SecAlloc.Client.Safety.{Returns, Reach-Returns, Reach-zeroed, Reach-drop}
use secmem_alloc.Tests.Machine.{
  page, at_start, at_start-Inv, five, sixteen, three, five-IsLayout, sixteen-IsLayout,
  three-IsLayout, low, high, after_five, after_five-Inv,
}
use secmem_alloc.Tests.Run.{
  allocate-five, sevens, sevens_elsewhere, sevens-Inside, after_write, after_write-Inv, after_free,
  written, Reach-written, Reach-last_left,
}

Reach-zeroed_example :
    ((a : ℕ) → InPage after_free a → Outside a (high ∷ []) → after_free.mem a ≡ some 0)
    × (consistency_check after_free ≡ done (tt, after_free))
Reach-zeroed_example = Reach-zeroed at_start-Inv Reach-last_left

-- The block grows by a move, since another lies above it.
Reach-Returns_example : Returns written (grow_request (high ∷ []) low [] five sixteen)
Reach-Returns_example =
    Reach-Returns at_start-Inv Reach-written (grow_request (high ∷ []) low [] five sixteen)
      (refl, (omega arith, refl), sixteen-IsLayout, omega arith)

Reach-drop_example :
    ((high ∷ [] ≡ [])
      × (drop after_free ≡ done (tt, after_free))
      × (drop_no_std after_free ≡ done (tt, after_free)))
    ⊎ ((high ∷ [] ≢ []) × (drop after_free ≡ fault abort) × (drop_no_std after_free ≡ fault panic))
Reach-drop_example = Reach-drop at_start-Inv Reach-last_left

deallocate-wipes_example :
    (w' : Sec) × (deallocate 0x1000 five after_write ≡ done (tt, w'))
    × Inv (high ∷ []) w'
    × ((a : ℕ) → Inside a low → w'.mem a ≡ some 0)
    × ((a : ℕ) → ¬ Inside a low → w'.mem a ≡ after_write.mem a)
    × (w'.alloc.page ≡ page)
deallocate-wipes_example =
    deallocate-wipes (high ∷ []) [] low after_write-Inv five (omega arith, refl)

allocate-IsFresh_example :
    ((s : Slice) × (w' : Sec) × (allocate sixteen after_five ≡ done (ok s, w'))
      × IsFresh (low ∷ []) sixteen after_five s w')
    ⊎ ((allocate sixteen after_five ≡ done (err alloc_error, after_five))
        × NoRoom sixteen after_five)
allocate-IsFresh_example = allocate-IsFresh sixteen after_five-Inv sixteen-IsLayout (omega arith)

-- The last block grows in place, a lower one by a move.
grow-Moves_example : Moves [] [] low sixteen 5 after_five (grow 0x1000 five sixteen after_five)
grow-Moves_example =
    grow-Moves [] [] low after_five-Inv five sixteen (omega arith, refl) sixteen-IsLayout
      (omega arith)

-- The lower block cannot grow at its place, and the page has room for it above.
grow-eq_example :
    grow 0x1000 five sixteen after_write ≡ done (after_grow low five sixteen after_write)
grow-eq_example =
    grow-eq (high ∷ []) [] low after_write-Inv five sixteen (omega arith, refl) sixteen-IsLayout
      (omega arith)

shrink-eq_example :
    shrink 0x1040 sixteen three after_write ≡ done (after_shrink high three after_write)
shrink-eq_example =
    shrink-eq [] (low ∷ []) high after_write-Inv sixteen three (omega arith, refl) three-IsLayout
      (omega arith)

shrink-Moves_example :
    Moves [] (low ∷ []) high three 3 after_write (shrink 0x1040 sixteen three after_write)
shrink-Moves_example =
    shrink-Moves [] (low ∷ []) high after_write-Inv sixteen three (omega arith, refl) three-IsLayout
      (omega arith) (omega arith)

deallocate-allocate_example :
    deallocate 0x1000 five (record after_five { mem = sevens }) ≡ done (tt, at_start)
deallocate-allocate_example =
    deallocate-allocate at_start-Inv five five-IsLayout (omega arith) (omega arith) (slice 0x1000 8)
      after_five sevens allocate-five
      (record { elsewhere = sevens_elsewhere; still_mapped = λ a i. rw (sevens-Inside a i) refl })

Reach-SameOutside_example : SameOutside at_start after_free
Reach-SameOutside_example = Reach-SameOutside at_start-Inv Reach-last_left
