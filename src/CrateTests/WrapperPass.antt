-- ===== src/CrateTests/WrapperPass.antt =====
-- The unit tests of src/zeroizing_alloc.rs, over any backend.
use secmem_alloc.Base.{
  ℕ, ◌<◌, ◌≡◌, ◌⊎◌, inl, inr, refl, ◌∙◌, arith, done, fault, panic, Result, ok, err,
}
use secmem_alloc.Memory.{Memory, World}
use secmem_alloc.Util.{Slice}
use secmem_alloc.Layout.{Layout, IsLayout, AllocError, alloc_error}
use secmem_alloc.Traits.{Allocator, WritesIn}
use secmem_alloc.Traits.Contract.{Separate, Keeps, IsNew, IsAllocator}
use secmem_alloc.ZeroizingAlloc.{
  ZeroizeAlloc, inner, outer, allocate, allocate_zeroed, deallocate, zeroizing_allocator,
}
use secmem_alloc.ZeroizingAlloc.Wiped.{valid_layout-done}
use secmem_alloc.ZeroizingAlloc.Allocates.{zeroizing_allocator-IsAllocator}
use secmem_alloc.CrateTests.{bytes, units}
use secmem_alloc.CrateTests.BoxTests.{bytes-IsLayout}
use secmem_alloc.CrateTests.Boxes.{BoxApi, IsBoxApi, Value}
use secmem_alloc.CrateTests.Zeroed.{assert_zeros-done}
use secmem_alloc.Traits.Provided.{Resize, IsProvidedShrink}
use secmem_alloc.CrateTests.Vecs.{VecApi, Sizing, IsVecApi}
use secmem_alloc.CrateTests.WrapperVecPass.{
  vec_9b_passes, vec_grow_repeated_passes, vec_shrink_passes,
}
use secmem_alloc.CrateTests.Refusal.{Passes, Refuses, Aborts, Fails, PassesOrRefuses}
use secmem_alloc.CrateTests.Wrapper.{
  with_wrapper, box_allocation, zeroed_allocation, body, Test, boxes_8b, boxes_9b, boxes_zst,
  vec_9b, vec_grow_repeated, vec_shrink, wrapper_methods, zeroed,
}

module _ {A G : Type 0} (Ready : G → World A → Type 0) (Live : G → ℕ → Layout → Type 0)
    (backend : Allocator A) (laws : IsAllocator Ready Live backend) where
  -- A block that is new, is written to and is given back: the others are kept.
  given_back :
      {l : Layout} {g g' : G} {w w' : World A} {s : Slice}
      → IsLayout l
      → 0 < l.size
      → IsNew Ready Live l g w s g' w'
      → (m : Memory) → WritesIn s.addr l w'.mem m
      → (g'' : G) × (w'' : World A) × (deallocate backend s.addr l (outer (record w' { mem = m }))
          ≡ done (tt, outer w''))
        × Ready g'' w''
        × ((q : ℕ) (k : Layout) → Live g q k → Keeps Ready Live q k w g'' w'')
  given_back {l} {g} {g'} {w} {w'} {s} lay pos new m wr =
      let live = new.live l lay refl (omega arith) new.large in
      let ready = laws.writable g' w' s.addr l m new.ready live wr in
      let (g'', w'', ran, ready', others) =
        (zeroizing_allocator-IsAllocator Ready Live backend laws).deallocs g'
          (outer (record w' { mem = m })) s.addr l ready live in
      (
        g'',
        inner w'',
        ran,
        ready',
        λ q k live_q.
            let (kept, same) = new.keeps q k live_q in
            let apart = new.separate q k live_q in
            let smaller : Separate s.addr l q k = omega (arith, apart, new.large) in
            let (kept', same') = others q k kept smaller in
            (kept', λ a x y. same' a x y ∙ wr.elsewhere a (omega (arith, smaller)) ∙ same a x y),
      )

  zeroed-Passes :
      (g : G) (w : World A)
      → Ready g w
      → Passes Ready Live backend g w (with_wrapper backend (zeroed_allocation backend) w)
        ⊎ ((with_wrapper backend (zeroed_allocation backend) w ≡ fault panic)
            × Refuses Ready Live backend (backend.allocate_zeroed (bytes 0 16).layout w))
  unfolding with_wrapper zeroed_allocation allocate_zeroed
  zeroed-Passes g w ready =
      let l : Layout = (bytes 0 16).layout in
      let lay : IsLayout l = bytes-IsLayout 0 16 (omega arith) in
      elim (laws.allocs_zeroed g w l ready lay) [
        | inl (s, g', w', ran, new, zeros) ↦
            let lent =
              laws.lent g' w' s.addr l new.ready (new.live l lay refl (omega arith) new.large) in
            let (g'', w'', ran', ready', kept) =
              given_back lay (omega arith) new w'.mem
                (record { elsewhere = λ a o. refl; still_mapped = lent.mapped }) in
            inl (
              g'',
              w'',
              rw
                  (
                    valid_layout-done l (outer w) lay,
                    ran,
                    assert_zeros-done s.addr 16 0 (outer w')
                        (omega (arith, lent.small (omega arith)))
                        (λ a h k. zeros a (omega arith) (omega (arith, new.large))),
                    ran',
                  )
                  refl,
              (ready', kept),
            )
        | inr (w', ran, ready', same) ↦
            inr (rw (valid_layout-done l (outer w) lay, ran) refl, (w', ran))
      ]

  -- The wrapper asks the backend.
  asked :
      (l : Layout) (w : World A)
      → IsLayout l
      → (r : Result Slice AllocError) (w' : World A) → backend.allocate l w ≡ done (r, w')
      → allocate backend l (outer w) ≡ done (r, outer w')
  unfolding allocate
  asked l w lay r w' ran = rw (valid_layout-done l (outer w) lay, ran) refl

  module _ (box : BoxApi (ZeroizeAlloc A))
      (box_laws : IsBoxApi (zeroizing_allocator backend) box) where
    box-Passes :
        (v : Value) (g : G) (w : World A)
        → Ready g w
        → IsLayout v.layout
        → 0 < v.layout.size
        → Passes Ready Live backend g w (with_wrapper backend (box_allocation backend box v) w)
          ⊎ Aborts Ready Live backend v.layout w
              (with_wrapper backend (box_allocation backend box v) w)
    unfolding with_wrapper box_allocation
    box-Passes v g w ready lay pos = elim (laws.allocs g w v.layout ready lay) [
      | inl (s, g', w', ran, new) ↦
          let lent =
            laws.lent g' w' s.addr v.layout new.ready
              (new.live v.layout lay refl (omega arith) new.large) in
          let (m, placed, wr) =
            box_laws.places (outer w) (outer w') v s pos (asked v.layout w lay (ok s) w' ran)
              lent.mapped in
          let (g'', w'', ran', ready', kept) =
            given_back lay pos new m
              (record { elsewhere = wr.elsewhere; still_mapped = wr.still_mapped }) in
          let dropped =
            box_laws.gives_back (outer (record w' { mem = m }))
              (record { ptr = s.addr; layout = v.layout }) pos in
          inl (g'', w'', rw (placed, dropped, ran') refl, (ready', kept))
      | inr (w', ran, ready', same) ↦ inr (
        rw
            (box_laws.refused (outer w) (outer w') v pos
              (asked v.layout w lay (err alloc_error) w' ran))
            refl,
        (w', ran),
      )
    ]

    zst-Passes :
        (v : Value) (g : G) (w : World A)
        → Ready g w
        → v.layout.size ≡ 0
        → Passes Ready Live backend g w (with_wrapper backend (box_allocation backend box v) w)
    unfolding with_wrapper box_allocation
    zst-Passes v g w ready empty =
        let (p, placed) = box_laws.places_nothing (outer w) v empty in
        let dropped =
          box_laws.gives_nothing_back (outer w) (record { ptr = p; layout = v.layout }) empty in
        (g, w, rw (placed, dropped) refl, (ready, λ q k live. (live, λ a x y. refl)))

module _ {A G : Type 0} (Ready : G → World A → Type 0) (Live : G → ℕ → Layout → Type 0)
    (backend : Allocator A) (laws : IsAllocator Ready Live backend) (box : BoxApi (ZeroizeAlloc A))
    (box_laws : IsBoxApi (zeroizing_allocator backend) box) (grow shrink : Resize (ZeroizeAlloc A))
    (provided : IsProvidedShrink shrink) (sizing : Sizing) (vec : VecApi (ZeroizeAlloc A))
    (vec_laws : IsVecApi (wrapper_methods backend grow shrink) sizing vec) where
  -- Each of the unit tests of the wrapper, over any backend that keeps the contract of
  -- `Allocator`, with any `Box` and `Vec` that do what is documented, and with the provided
  -- `shrink`: it returns, and all blocks that were live before are live and have the same bytes;
  -- or it fails in one of these ways. A test that makes a box or a vector aborts, and `allocate`
  -- of the backend returns an error, in the first state of the test, for the layout of the box
  -- or the capacity that the vector asks for. The test on `allocate_zeroed` panics, and
  -- `allocate_zeroed` of the backend returns an error for its layout in the first state. A test
  -- that makes a vector panics, and the capacity that it asks for is 2^63 bytes or more. The
  -- test that shrinks a vector has made it and has pushed a byte, in a state in which the blocks
  -- from before are kept, and aborts, and `allocate` of the backend returns an error, in this
  -- state, for what is in use. The test with a box of size 0 does not fail.
  pub wrapper_test_passes :
      (t : Test) (g : G) (w : World A)
      → Ready g w
      → PassesOrRefuses Ready Live backend sizing vec t g w
          (with_wrapper backend (body backend box vec t) w)
  unfolding body Fails
  wrapper_test_passes boxes_8b g w ready =
      box-Passes Ready Live backend laws box box_laws (bytes 1 8) g w ready
        (bytes-IsLayout 1 8 (omega arith)) (omega arith)
  wrapper_test_passes boxes_9b g w ready =
      box-Passes Ready Live backend laws box box_laws (bytes 1 9) g w ready
        (bytes-IsLayout 1 9 (omega arith)) (omega arith)
  wrapper_test_passes boxes_zst g w ready =
      inl (zst-Passes Ready Live backend laws box box_laws (units 8) g w ready refl)
  wrapper_test_passes vec_9b g w ready =
      vec_9b_passes Ready Live backend laws grow shrink provided sizing vec vec_laws g w ready
  wrapper_test_passes vec_grow_repeated g w ready =
      vec_grow_repeated_passes Ready Live backend laws grow shrink provided sizing vec vec_laws g w
        ready
  wrapper_test_passes vec_shrink g w ready =
      vec_shrink_passes Ready Live backend laws grow shrink provided sizing vec vec_laws g w ready
  wrapper_test_passes zeroed g w ready = zeroed-Passes Ready Live backend laws g w ready
