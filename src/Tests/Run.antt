-- ===== src/Tests/Run.antt =====
-- A run of the allocator of src/sec_alloc.rs on one page.
use secmem_alloc.Base.{ℕ, ◌≡◌, refl, some, [], ◌∷◌, arith, done, ok}
use secmem_alloc.Memory.{Memory, fill}
use secmem_alloc.Memory.Ranges.{fill-inside}
use secmem_alloc.SecAlloc.{Sec, allocate}
use secmem_alloc.SecAlloc.Blocks.{Inside}
use secmem_alloc.SecAlloc.Invariant.{Inv}
use secmem_alloc.SecAlloc.Allocate.{slice, allocate_zeroed-eq}
use secmem_alloc.SecAlloc.Deallocate.{freed, deallocate-eq}
use secmem_alloc.SecAlloc.Client.{System, Step, Reach, here, next, allocates, deallocates, writes}
use secmem_alloc.SecAlloc.Client.Safety.{Step-Inv}
use secmem_alloc.Tests.Machine.{
  one_page, at_start, at_start-Inv, five, sixteen, five-IsLayout, sixteen-IsLayout, low, high,
  after_five, after_sixteen, after_five-Inv, after_sixteen-Inv,
}

pub allocate-five : allocate five at_start ≡ done (ok (slice 0x1000 8), after_five)
unfolding allocate
allocate-five = allocate_zeroed-eq at_start-Inv five five-IsLayout (omega arith)

pub allocate-sixteen : allocate sixteen after_five ≡ done (ok (slice 0x1040 16), after_sixteen)
unfolding allocate
allocate-sixteen = allocate_zeroed-eq after_five-Inv sixteen sixteen-IsLayout (omega arith)

-- Sevens are written into the lower block, and then it is given back, below the other.
abbrev pub sevens : Memory
sevens = fill one_page 0x1000 7 8

abbrev pub after_write : Sec
after_write = record after_sixteen { mem = sevens }

abbrev pub after_free : Sec
after_free = freed after_write low

pub sevens_elsewhere : (a : ℕ) → ¬ Inside a low → sevens a ≡ one_page a
unfolding fill
sevens_elsewhere a h = ground arith

pub sevens-Inside : (a : ℕ) → Inside a low → sevens a ≡ some 7
sevens-Inside a i = fill-inside one_page 0x1000 7 8 a i.0 i.1

abbrev pub one : System
one = record { live = low ∷ []; world = after_five }

abbrev pub two : System
two = record { live = high ∷ low ∷ []; world = after_sixteen }

abbrev pub written : System
written = record { live = high ∷ low ∷ []; world = after_write }

abbrev pub last_left : System
last_left = record { live = high ∷ []; world = after_free }

abbrev pub first-Step : Step (record { live = []; world = at_start }) one
first-Step = allocates five (ok (slice 0x1000 8), after_five) five-IsLayout allocate-five refl

pub second-Step : Step one two
second-Step =
    allocates sixteen (ok (slice 0x1040 16), after_sixteen) sixteen-IsLayout allocate-sixteen refl

pub write-Step : Step two written
write-Step =
    writes (high ∷ []) low [] sevens (refl, sevens_elsewhere, λ a i. rw (sevens-Inside a i) refl)
      refl

pub after_write-Inv : Inv (high ∷ low ∷ []) after_write
after_write-Inv = Step-Inv write-Step after_sixteen-Inv

free-Step : Step written last_left
free-Step =
    deallocates (high ∷ []) low [] five after_free (refl, (omega arith, refl))
      (deallocate-eq (high ∷ []) [] low after_write-Inv five (omega arith, refl)) refl

pub Reach-written : Reach (record { live = []; world = at_start }) written
Reach-written = next (next (next here first-Step) second-Step) write-Step

pub Reach-last_left : Reach (record { live = []; world = at_start }) last_left
Reach-last_left = next Reach-written free-Step

-- Then the other block is given back too, as the layout that it was asked for.
abbrev pub after_all : Sec
after_all = freed after_free high

abbrev pub nothing_left : System
nothing_left = record { live = []; world = after_all }

pub last-Step : Step last_left nothing_left
last-Step =
    deallocates [] high [] sixteen after_all (refl, (omega arith, refl))
      (deallocate-eq [] [] high (Step-Inv free-Step after_write-Inv) sixteen (omega arith, refl))
      refl

pub Reach-nothing_left : Reach (record { live = []; world = at_start }) nothing_left
Reach-nothing_left = next Reach-last_left last-Step
