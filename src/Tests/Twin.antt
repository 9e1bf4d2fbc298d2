-- ===== src/Tests/Twin.antt =====
-- Two runs of the allocator of src/sec_alloc.rs that differ in the bytes that are written.
use secmem_alloc.Base.{ℕ, ◌≡◌, refl, Option, none, some, List, [], ◌∷◌, arith, ok}
use secmem_alloc.Memory.{Memory, fill}
use secmem_alloc.Memory.Ranges.{fill-inside, fill-outside}
use secmem_alloc.SecAlloc.{SliceResult}
use secmem_alloc.SecAlloc.Blocks.{not-Inside}
use secmem_alloc.SecAlloc.Allocate.{slice}
use secmem_alloc.SecAlloc.Deallocate.{freed, deallocate-eq}
use secmem_alloc.SecAlloc.Client.{System, Step, deallocates, writes}
use secmem_alloc.SecAlloc.Client.Safety.{Step-Inv}
use secmem_alloc.SecAlloc.Client.After.{after, Step-eq-after}
use secmem_alloc.SecAlloc.Client.Twins.{
  Twins, begin, both, same_call, other_bytes, Indistinct, Twins-Indistinct,
}
use secmem_alloc.SecAlloc.Client.{deallocate_request}
use secmem_alloc.Tests.Machine.{
  one_page, at_start, at_start-Inv, five, low, after_five, after_five-Inv,
}
use secmem_alloc.Tests.Run.{one, first-Step}

-- The block is filled with one byte.
abbrev filled : ℕ → Memory
filled v = fill one_page 0x1000 v 8

abbrev kept : ℕ → System
kept v = record { live = low ∷ []; world = record after_five { mem = filled v } }

abbrev left : ℕ → System
left v = record { live = []; world = freed (record after_five { mem = filled v }) low }

abbrev fill-Step : (v : ℕ) → Step one (kept v)
fill-Step v =
    writes [] low [] (filled v)
      (
        refl,
        λ a o. fill-outside one_page 0x1000 v 8 a (not-Inside a low o),
        λ a i. rw (fill-inside one_page 0x1000 v 8 a i.0 i.1) refl,
      )
      refl

abbrev free-Step : (v : ℕ) → Step (kept v) (left v)
free-Step v =
    deallocates [] low [] five (left v).world (refl, (omega arith, refl))
      (deallocate-eq [] [] low (Step-Inv (fill-Step v) after_five-Inv) five (omega arith, refl))
      refl

abbrev answers : List (Option SliceResult)
answers = none ∷ none ∷ some (ok (slice 0x1000 8)) ∷ []

sevens_and_nines : Twins (record { live = []; world = at_start }) answers (left 7) answers (left 9)
sevens_and_nines =
    both
      (both (both begin first-Step first-Step (same_call _)) (fill-Step 7) (fill-Step 9)
        (other_bytes [] low [] (filled 7) (filled 9)))
      (free-Step 7) (free-Step 9) (same_call _)

Twins-Indistinct_example : (answers ≡ answers) × Indistinct (left 7) (left 9)
Twins-Indistinct_example = Twins-Indistinct at_start-Inv sevens_and_nines

-- The block is given back after it is filled.
Step-eq-after_example : (none, left 7) ≡ after (deallocate_request [] low [] five) (kept 7)
Step-eq-after_example = Step-eq-after (free-Step 7) (Step-Inv (fill-Step 7) after_five-Inv)
