-- ===== src/CrateTests.antt =====
-- The unit tests of src/sec_alloc.rs: here those on boxes and the one on `allocate_zeroed`, in
-- CrateTests/VecTests those on vectors. `Box` and `Vec` are those of the crate `allocator_api2`,
-- parameters of the tests.
pub mod Boxes
pub mod Vecs
pub mod VecTests
pub mod Steps
pub mod VecSteps
pub mod VecCalls
pub mod Beside
pub mod VecPass
pub mod BoxTests
pub mod Zeroed
pub mod Pass
pub mod Zeroizers
pub mod Refusal
pub mod Wrapper
pub mod WrapperVecs
pub mod VecWiped
pub mod WrapperVecPass
pub mod WrapperPass
use secmem_alloc.Base.{
  ℕ, zero, suc, ◌+◌, ◌*◌, ◌==◌, if◌then◌else◌, M, ◌>>=◌, ◌>>◌, pure, throw, Outcome, done, fault,
  panic, Result, ok, err,
}
use secmem_alloc.Memory.{World, ptr_add, read}
use secmem_alloc.Util.{Slice}
use secmem_alloc.Layout.{Layout}
use secmem_alloc.Page.Source.{PageSource}
use secmem_alloc.SecAlloc.{SecStackSinglePageAlloc, Sec, consistency_check, allocate_zeroed, drop}
use secmem_alloc.SecAlloc.Resize.{deallocate}
use secmem_alloc.SecAlloc.New.{new}
use secmem_alloc.CrateTests.Vecs.{VecApi}
use secmem_alloc.CrateTests.VecTests.{
  vec_allocation_9b, vec_allocation_grow_repeated, vec_allocation_nonfinal_grow,
  vec_allocation_shrink, vec_allocation_nonfinal_shrink,
}
use secmem_alloc.CrateTests.Boxes.{BoxApi, Value}

-- `expect` and `assert_eq!`
abbrev pub expect : {S A E : Type 0} → Result A E → M S A
expect (ok a) = pure a
expect (err e) = throw panic

abbrev pub assert_eq : {S : Type 0} → ℕ → ℕ → M S (Unit {0})
assert_eq left right = if left == right then pure tt else throw panic

-- Arrays of `n` elements: bytes, `Align16` or `ByteAlign16`, which both have size 16, and `()`.
abbrev pub bytes : ℕ → ℕ → Value
bytes v n = record { layout = record { size = n; align = 1 }; element = v }

abbrev pub align16s : ℕ → ℕ → Value
align16s v n = record { layout = record { size = n * 16; align = 16 }; element = v }

abbrev pub units : ℕ → Value
units n = record { layout = record { size = 0; align = 1 }; element = 0 }

-- A call on an allocator, in a state of the system that the call does not look at.
abbrev pub lower :
    {K A : Type 0} → K → Outcome (A × Sec) → Outcome ((A × SecStackSinglePageAlloc) × World K)
lower k (done (x, v)) = done ((x, v.alloc), record { alloc = k; mem = v.mem })
lower k (fault e) = fault e

abbrev pub on_allocator :
    {K A : Type 0} → M Sec A → SecStackSinglePageAlloc → M (World K) (A × SecStackSinglePageAlloc)
on_allocator call allocator w = lower w.alloc (call (record { alloc = allocator; mem = w.mem }))

-- What stands between the creation of the allocator in the first line of a test and its drop at the
-- end is `body`. The page is dropped with the allocator.
module _ {K E : Type 0} (source : PageSource K E) where
  unfoldable pub with_allocator : M Sec (Unit {0}) → M (World K) (Unit {0})
  with_allocator body = do
    created ← new source
    allocator ← expect created
    used ← on_allocator body allocator
    dropped ← on_allocator drop used.1
    source.drop dropped.1.page

unfoldable pub create_consistency : M Sec (Unit {0})
create_consistency = consistency_check

module _ (box : BoxApi SecStackSinglePageAlloc) where
  -- The three tests with one box differ in its value only.
  unfoldable pub box_allocation : Value → M Sec (Unit {0})
  box_allocation value = do
    consistency_check
    heap_mem ← box.new_in value
    consistency_check
    box.drop heap_mem
    consistency_check

  abbrev pub box_allocation_8b : M Sec (Unit {0})
  box_allocation_8b = box_allocation (bytes 1 8)

  abbrev pub box_allocation_9b : M Sec (Unit {0})
  box_allocation_9b = box_allocation (bytes 1 9)

  abbrev pub box_allocation_zst : M Sec (Unit {0})
  box_allocation_zst = box_allocation (units 8)

  -- So do the tests with one box below two others.
  unfoldable pub box_allocations : Value → Value → Value → M Sec (Unit {0})
  box_allocations value value2 value2prime = do
    consistency_check
    heap_mem ← box.new_in value
    consistency_check
    heap_mem2 ← box.new_in value2
    consistency_check
    box.drop heap_mem2
    consistency_check
    heap_mem2prime ← box.new_in value2prime
    consistency_check
    box.drop heap_mem2prime
    consistency_check
    box.drop heap_mem
    consistency_check

  abbrev pub multiple_box_allocations : M Sec (Unit {0})
  multiple_box_allocations = box_allocations (bytes 1 9) (bytes 1 9) (bytes 1 9)

  abbrev pub multiple_box_allocations_high_align : M Sec (Unit {0})
  multiple_box_allocations_high_align = box_allocations (align16s 1 5) (align16s 1 9) (align16s 1 2)

  abbrev pub multiple_box_allocations_mixed_align : M Sec (Unit {0})
  multiple_box_allocations_mixed_align = box_allocations (bytes 1 17) (align16s 1 9) (align16s 1 2)

  unfoldable pub many_box_allocations_mixed_align_nonstacked_drop : M Sec (Unit {0})
  many_box_allocations_mixed_align_nonstacked_drop = do
    consistency_check
    heap_mem1 ← box.new_in (align16s 1 11)
    consistency_check
    heap_mem2 ← box.new_in (align16s 1 51)
    consistency_check
    heap_mem3 ← box.new_in (bytes 1 143)
    consistency_check
    box.drop heap_mem3
    consistency_check
    heap_mem4 ← box.new_in (align16s 1 1)
    consistency_check
    heap_mem5 ← box.new_in (align16s 1 1)
    consistency_check
    box.drop heap_mem2
    consistency_check
    box.drop heap_mem1
    consistency_check
    box.drop heap_mem4
    consistency_check
    box.drop heap_mem5
    consistency_check
    consistency_check

-- The loop of the test `allocate_zeroed`, with `left` bytes to go.
unfoldable pub assert_zeros : {A : Type 0} → ℕ → ℕ → ℕ → M (World A) (Unit {0})
assert_zeros ptr zero i = pure tt
assert_zeros ptr (suc left) i = do
  addr ← ptr_add ptr i
  val ← read addr
  assert_eq val 0
  assert_zeros ptr left (i + 1)

-- The test `allocate_zeroed`
unfoldable pub zeroed_allocation : M Sec (Unit {0})
zeroed_allocation = do
  allocated ← allocate_zeroed (record { size = 16; align = 1 })
  ptr ← expect allocated
  assert_zeros ptr.addr 16 0
  deallocate ptr.addr (record { size = 16; align = 1 })

-- The tests that are modelled.
pub data Test : Type 0 where
  creates boxes_8b boxes_9b boxes_zst boxes boxes_high_align boxes_mixed_align boxes_nonstacked :
      Test
  zeroed vec_9b vec_grow_repeated vec_nonfinal_grow vec_shrink vec_nonfinal_shrink : Test

unfoldable pub body :
    BoxApi SecStackSinglePageAlloc → VecApi SecStackSinglePageAlloc → Test → M Sec (Unit {0})
body box vec creates = create_consistency
body box vec boxes_8b = box_allocation_8b box
body box vec boxes_9b = box_allocation_9b box
body box vec boxes_zst = box_allocation_zst box
body box vec boxes = multiple_box_allocations box
body box vec boxes_high_align = multiple_box_allocations_high_align box
body box vec boxes_mixed_align = multiple_box_allocations_mixed_align box
body box vec boxes_nonstacked = many_box_allocations_mixed_align_nonstacked_drop box
body box vec zeroed = zeroed_allocation
body box vec vec_9b = vec_allocation_9b vec
body box vec vec_grow_repeated = vec_allocation_grow_repeated vec
body box vec vec_nonfinal_grow = vec_allocation_nonfinal_grow box vec
body box vec vec_shrink = vec_allocation_shrink vec
body box vec vec_nonfinal_shrink = vec_allocation_nonfinal_shrink box vec
