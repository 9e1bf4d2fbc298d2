-- ===== src/CrateTests/Boxes.antt =====
-- `Box` of `allocator_api2` over an allocator by reference, as the tests of src/sec_alloc.rs and
-- src/zeroizing_alloc.rs use it.
use secmem_alloc.Base.{ℕ, ◌+◌, ◌≤◌, ◌<◌, ◌≡◌, true, done, fault, abort, ok, err, M}
use secmem_alloc.Memory.{Memory, World, is_mapped}
use secmem_alloc.Util.{Slice}
use secmem_alloc.Layout.{Layout, alloc_error}
use secmem_alloc.Traits.{Allocator, WritesIn}

-- An array, all elements of which are equal.
pub record Value : Type 0 where
  pub layout : Layout
  pub element : ℕ

-- A box, without its allocator. The layout is known from its type.
pub record Boxed : Type 0 where
  pub ptr : ℕ
  pub layout : Layout

pub record BoxApi (A : Type 0) : Type 0 where
  pub new_in : Value → M (World A) Boxed
  pub drop : Boxed → M (World A) (Unit {0})

-- The bytes of the block can be written.
abbrev pub Writable : {A : Type 0} → ℕ → Layout → World A → Type 0
Writable p l w = (a : ℕ) → p ≤ a → a < p + l.size → is_mapped (w.mem a) ≡ true

-- What is documented: a value of size 0 is not allocated; for any other the allocator is asked for
-- its layout, and the value is written to the block, or `handle_alloc_error` is called. To drop a
-- box is to give its block back.
pub record IsBoxApi {A : Type 0} (allocator : Allocator A) (box : BoxApi A) : Type 0 where
  pub places_nothing :
      (w : World A) (v : Value)
      → v.layout.size ≡ 0
      → (p : ℕ) × (box.new_in v w ≡ done (record { ptr = p; layout = v.layout }, w))
  pub places :
      (w w' : World A) (v : Value) (s : Slice)
      → 0 < v.layout.size
      → allocator.allocate v.layout w ≡ done (ok s, w')
      → Writable s.addr v.layout w'
      → (m : Memory) × (box.new_in v w
          ≡ done (record { ptr = s.addr; layout = v.layout }, record w' { mem = m }))
        × WritesIn s.addr v.layout w'.mem m
  pub refused :
      (w w' : World A) (v : Value)
      → 0 < v.layout.size
      → allocator.allocate v.layout w ≡ done (err alloc_error, w')
      → box.new_in v w ≡ fault abort
  pub gives_back :
      (w : World A) (b : Boxed)
      → 0 < b.layout.size
      → box.drop b w ≡ allocator.deallocate b.ptr b.layout w
  pub gives_nothing_back :
      (w : World A) (b : Boxed) → b.layout.size ≡ 0 → box.drop b w ≡ done (tt, w)
