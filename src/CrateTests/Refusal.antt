-- ===== src/CrateTests/Refusal.antt =====
-- How a unit test of src/zeroizing_alloc.rs can end, over any backend.
use secmem_alloc.Base.{ℕ, ◌^◌, ◌≤◌, ◌≡◌, ◌⊎◌, Outcome, done, fault, abort, panic, Result, err}
use secmem_alloc.Memory.{World}
use secmem_alloc.Util.{Slice}
use secmem_alloc.Layout.{Layout, AllocError, alloc_error}
use secmem_alloc.Traits.{Allocator}
use secmem_alloc.Traits.Contract.{Keeps}
use secmem_alloc.ZeroizingAlloc.{ZeroizeAlloc, inner, outer}
use secmem_alloc.CrateTests.Vecs.{Bytes, VecApi, Sizing, array}
use secmem_alloc.CrateTests.{bytes}
use secmem_alloc.CrateTests.Wrapper.{
  Test, boxes_8b, boxes_9b, boxes_zst, vec_9b, vec_grow_repeated, vec_shrink, zeroed,
}

module _ {A G : Type 0} (Ready : G → World A → Type 0) (Live : G → ℕ → Layout → Type 0)
    (backend : Allocator A) where
  -- A state in which the blocks of an earlier one are kept.
  abbrev pub IsAfter : G → World A → G → World A → Type 0
  IsAfter g w h v = Ready h v × ((q : ℕ) (k : Layout) → Live g q k → Keeps Ready Live q k w h v)

  -- A call of the backend has returned an error.
  abbrev pub Refuses : Outcome (Result Slice AllocError × World A) → Type 0
  Refuses o = (w' : World A) × (o ≡ done (err alloc_error, w'))

  abbrev pub Passes : G → World A → Outcome (Unit {0} × World A) → Type 0
  Passes g w o = (g' : G) × (w' : World A) × (o ≡ done (tt, w')) × IsAfter g w g' w'

  -- It ends in an abort, and `allocate` of the backend returns an error for this layout in this state.
  abbrev pub Aborts : {B : Type 0} → Layout → World A → Outcome B → Type 0
  Aborts l w o = (o ≡ fault abort) × Refuses (backend.allocate l w)

  module _ (sizing : Sizing) (vec : VecApi (ZeroizeAlloc A)) where
    -- The vector is not made: the backend has no room for the capacity that it asks for, or that is more
    -- than any layout can have.
    abbrev pub FailsToMake : {B : Type 0} → World A → Outcome B → Type 0
    FailsToMake w o =
        Aborts (array (sizing.first 9)) w o ⊎ ((o ≡ fault panic) × (2 ^ 63 ≤ sizing.first 9))

    -- The vector is made and a byte is pushed, and in the state that is reached then the backend has no
    -- room for the block of what is in use.
    abbrev pub FailsToShrink : G → World A → Outcome (Unit {0} × World A) → Type 0
    FailsToShrink g w o =
        (v : Bytes) × (u : World (ZeroizeAlloc A)) × (v1 : Bytes) × (u1 : World (ZeroizeAlloc A))
        × (h : G) × (vec.with_capacity_in 9 (outer w) ≡ done (v, u))
        × (vec.push v 255 u ≡ done (v1, u1))
        × IsAfter g w h (inner u1)
        × Aborts (array v1.len) (inner u1) o

    -- How each test ends if it does not pass.
    unfoldable pub Fails : Test → G → World A → Outcome (Unit {0} × World A) → Type 0
    Fails boxes_8b g w o = Aborts (bytes 1 8).layout w o
    Fails boxes_9b g w o = Aborts (bytes 1 9).layout w o
    Fails boxes_zst g w o = ⊥
    Fails vec_9b g w o = FailsToMake w o
    Fails vec_grow_repeated g w o = FailsToMake w o
    Fails vec_shrink g w o = FailsToMake w o ⊎ FailsToShrink g w o
    Fails zeroed g w o =
        (o ≡ fault panic) × Refuses (backend.allocate_zeroed (record { size = 16; align = 1 }) w)

  -- The test returns, with all blocks as they were; or it fails, in a way in which this test can.
  abbrev pub PassesOrRefuses :
      Sizing → VecApi (ZeroizeAlloc A) → Test → G → World A → Outcome (Unit {0} × World A) → Type 0
  PassesOrRefuses sizing vec t g w o = Passes g w o ⊎ Fails sizing vec t g w o
