-- ===== src/CrateTests/Wrapper.antt =====
-- The unit tests of src/zeroizing_alloc.rs. `System`, the backend, is a parameter, and so are `Box` and
-- `Vec`.
use secmem_alloc.Base.{M, ◌>>=◌, ◌>>◌, Outcome, done, fault}
use secmem_alloc.Memory.{World}
use secmem_alloc.Traits.{Allocator}
use secmem_alloc.Traits.Provided.{Resize}
use secmem_alloc.ZeroizingAlloc.{
  ZeroizeAlloc, new, inner, allocate, allocate_zeroed, deallocate, zeroizing_allocator,
}
use secmem_alloc.CrateTests.Vecs.{Methods, VecApi}
use secmem_alloc.CrateTests.{expect, bytes, units, assert_zeros}
use secmem_alloc.CrateTests.Boxes.{BoxApi, Value}

-- A call on a wrapper that is made for it.
abbrev pub unwrap : {A B : Type 0} → Outcome (B × World (ZeroizeAlloc A)) → Outcome (B × World A)
unwrap (done (r, w)) = done (r, inner w)
unwrap (fault e) = fault e

module _ {A : Type 0} (backend : Allocator A) where
  unfoldable pub with_wrapper : M (World (ZeroizeAlloc A)) (Unit {0}) → M (World A) (Unit {0})
  unfolding new
  with_wrapper body w = unwrap (body (record { alloc = new w.alloc; mem = w.mem }))

  unfoldable pub zeroed_allocation : M (World (ZeroizeAlloc A)) (Unit {0})
  zeroed_allocation = do
    allocated ← allocate_zeroed backend (record { size = 16; align = 1 })
    ptr ← expect allocated
    assert_zeros ptr.addr 16 0
    deallocate backend ptr.addr (record { size = 16; align = 1 })

  module _ (box : BoxApi (ZeroizeAlloc A)) where
    -- The tests with a box differ in its value only.
    unfoldable pub box_allocation : Value → M (World (ZeroizeAlloc A)) (Unit {0})
    box_allocation value = do heap_mem ← box.new_in value; box.drop heap_mem

    abbrev pub box_allocation_8b : M (World (ZeroizeAlloc A)) (Unit {0})
    box_allocation_8b = box_allocation (bytes 1 8)

    abbrev pub box_allocation_9b : M (World (ZeroizeAlloc A)) (Unit {0})
    box_allocation_9b = box_allocation (bytes 1 9)

    abbrev pub box_allocation_zst : M (World (ZeroizeAlloc A)) (Unit {0})
    box_allocation_zst = box_allocation (units 8)

-- The methods of the wrapper that a vector calls: `grow` and `shrink` are the provided ones.
abbrev pub wrapper_methods :
    {A : Type 0}
    → Allocator A
    → Resize (ZeroizeAlloc A)
    → Resize (ZeroizeAlloc A)
    → Methods (ZeroizeAlloc A)
wrapper_methods backend grow shrink = record {
  allocate = allocate backend;
  grow = grow (zeroizing_allocator backend);
  shrink = shrink (zeroizing_allocator backend);
  deallocate = deallocate backend;
}

module _ {A : Type 0} (vec : VecApi A) where
  unfoldable pub vec_allocation_9b : M (World A) (Unit {0})
  vec_allocation_9b = do heap_mem ← vec.with_capacity_in 9; vec.drop heap_mem

  unfoldable pub vec_allocation_grow_repeated : M (World A) (Unit {0})
  vec_allocation_grow_repeated = do
    heap_mem ← vec.with_capacity_in 9
    reserved ← vec.reserve heap_mem 1
    reserved_more ← vec.reserve reserved 7
    vec.drop reserved_more

  unfoldable pub vec_allocation_shrink : M (World A) (Unit {0})
  vec_allocation_shrink = do
    heap_mem ← vec.with_capacity_in 9
    pushed ← vec.push heap_mem 255
    fitted ← vec.shrink_to_fit pushed
    vec.drop fitted

pub data Test : Type 0 where
  boxes_8b boxes_9b boxes_zst vec_9b vec_grow_repeated vec_shrink zeroed : Test

unfoldable pub body :
    {A : Type 0}
    → Allocator A
    → BoxApi (ZeroizeAlloc A)
    → VecApi (ZeroizeAlloc A)
    → Test
    → M (World (ZeroizeAlloc A)) (Unit {0})
body backend box vec boxes_8b = box_allocation_8b backend box
body backend box vec boxes_9b = box_allocation_9b backend box
body backend box vec boxes_zst = box_allocation_zst backend box
body backend box vec vec_9b = vec_allocation_9b vec
body backend box vec vec_grow_repeated = vec_allocation_grow_repeated vec
body backend box vec vec_shrink = vec_allocation_shrink vec
body backend box vec zeroed = zeroed_allocation backend
