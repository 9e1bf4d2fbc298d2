-- ===== src/CrateTests/VecTests.antt =====
-- The unit tests of src/sec_alloc.rs on vectors.
use secmem_alloc.Base.{ℕ, M, ◌>>=◌, ◌>>◌}
use secmem_alloc.SecAlloc.{SecStackSinglePageAlloc, Sec, allocate, consistency_check}
use secmem_alloc.SecAlloc.Resize.{deallocate, shrink, grow}
use secmem_alloc.CrateTests.Boxes.{BoxApi, Value}
use secmem_alloc.CrateTests.Vecs.{Methods, VecApi}

-- The methods of the allocator.
abbrev pub sec_methods : Methods SecStackSinglePageAlloc
sec_methods = record { allocate = allocate; grow = grow; shrink = shrink; deallocate = deallocate }

abbrev pub u64 : ℕ → Value
u64 v = record { layout = record { size = 8; align = 8 }; element = v }

module _ (vec : VecApi SecStackSinglePageAlloc) where
  unfoldable pub vec_allocation_9b : M Sec (Unit {0})
  vec_allocation_9b = do
    consistency_check
    heap_mem ← vec.with_capacity_in 9
    consistency_check
    vec.drop heap_mem
    consistency_check

  unfoldable pub vec_allocation_grow_repeated : M Sec (Unit {0})
  vec_allocation_grow_repeated = do
    consistency_check
    heap_mem ← vec.with_capacity_in 9
    consistency_check
    reserved ← vec.reserve heap_mem 10
    consistency_check
    reserved_more ← vec.reserve reserved 17
    consistency_check
    vec.drop reserved_more
    consistency_check

  unfoldable pub vec_allocation_shrink : M Sec (Unit {0})
  vec_allocation_shrink = do
    consistency_check
    heap_mem ← vec.with_capacity_in 9
    consistency_check
    pushed ← vec.push heap_mem 255
    consistency_check
    fitted ← vec.shrink_to_fit pushed
    consistency_check
    vec.drop fitted
    consistency_check

module _ (box : BoxApi SecStackSinglePageAlloc) (vec : VecApi SecStackSinglePageAlloc) where
  unfoldable pub vec_allocation_nonfinal_grow : M Sec (Unit {0})
  vec_allocation_nonfinal_grow = do
    consistency_check
    heap_mem ← vec.with_capacity_in 9
    consistency_check
    heap_mem2 ← box.new_in (u64 37)
    consistency_check
    reserved ← vec.reserve heap_mem 10
    consistency_check
    reserved_more ← vec.reserve reserved 17
    consistency_check
    box.drop heap_mem2
    consistency_check
    vec.drop reserved_more
    consistency_check

  unfoldable pub vec_allocation_nonfinal_shrink : M Sec (Unit {0})
  vec_allocation_nonfinal_shrink = do
    consistency_check
    heap_mem ← vec.with_capacity_in 9
    consistency_check
    heap_mem2 ← box.new_in (u64 37)
    consistency_check
    pushed ← vec.push heap_mem 1
    consistency_check
    fitted ← vec.shrink_to_fit pushed
    consistency_check
    box.drop heap_mem2
    consistency_check
    vec.drop fitted
    consistency_check
