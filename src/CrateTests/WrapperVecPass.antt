-- ===== src/CrateTests/WrapperVecPass.antt =====
-- The unit tests of src/zeroizing_alloc.rs on vectors, over any backend.
use secmem_alloc.Base.{ℕ, ◌+◌, inl, inr, refl, arith}
use secmem_alloc.Memory.{World}
use secmem_alloc.Layout.{Layout}
use secmem_alloc.Traits.{Allocator}
use secmem_alloc.Traits.Contract.{IsAllocator}
use secmem_alloc.Traits.Provided.{Resize, IsProvidedShrink}
use secmem_alloc.ZeroizingAlloc.{ZeroizeAlloc, inner}
use secmem_alloc.CrateTests.Vecs.{VecApi, Sizing, IsVecApi}
use secmem_alloc.CrateTests.Refusal.{Fails, PassesOrRefuses}
use secmem_alloc.CrateTests.Wrapper.{
  vec_9b, vec_grow_repeated, vec_shrink, with_wrapper, wrapper_methods, vec_allocation_9b,
  vec_allocation_grow_repeated, vec_allocation_shrink,
}
use secmem_alloc.CrateTests.WrapperVecs.{makes, pushes, shrinks, drops}

module _ {A G : Type 0} (Ready : G → World A → Type 0) (Live : G → ℕ → Layout → Type 0)
    (backend : Allocator A) (laws : IsAllocator Ready Live backend)
    (grow shrink : Resize (ZeroizeAlloc A)) (provided : IsProvidedShrink shrink) (sizing : Sizing)
    (vec : VecApi (ZeroizeAlloc A))
    (vec_laws : IsVecApi (wrapper_methods backend grow shrink) sizing vec) (g : G) (w : World A)
    (start : Ready g w) where
  pub vec_9b_passes :
      PassesOrRefuses Ready Live backend sizing vec vec_9b g w
        (with_wrapper backend (vec_allocation_9b vec) w)
  unfolding with_wrapper Fails vec_allocation_9b
  vec_9b_passes =
      elim (makes Ready Live backend laws grow shrink provided sizing vec vec_laws g w start) [
        | inl (v, h, u, run, alive, large, none) ↦
            let (h', u', ran, after) =
              drops Ready Live backend laws grow shrink provided sizing vec vec_laws g w start v h u
                alive (omega arith) in
            inl (h', inner u', rw (run, ran) refl, after)
        | inr (inl (run, refused)) ↦ inr (inl (rw run refl, refused))
        | inr (inr (run, over)) ↦ inr (inr (rw run refl, over))
      ]

  -- Nothing is in use, so there is capacity for what is reserved, and the vector stays where it is.
  pub vec_grow_repeated_passes :
      PassesOrRefuses Ready Live backend sizing vec vec_grow_repeated g w
        (with_wrapper backend (vec_allocation_grow_repeated vec) w)
  unfolding with_wrapper Fails vec_allocation_grow_repeated
  vec_grow_repeated_passes =
      elim (makes Ready Live backend laws grow shrink provided sizing vec vec_laws g w start) [
        | inl (v, h, u, run, alive, large, none) ↦
            let stays = vec_laws.keeps_capacity u v 1 (omega arith) in
            let stays_again = vec_laws.keeps_capacity u v 7 (omega arith) in
            let (h', u', ran, after) =
              drops Ready Live backend laws grow shrink provided sizing vec vec_laws g w start v h u
                alive (omega arith) in
            inl (h', inner u', rw (run, stays, stays_again, ran) refl, after)
        | inr (inl (run, refused)) ↦ inr (inl (rw run refl, refused))
        | inr (inr (run, over)) ↦ inr (inr (rw run refl, over))
      ]

  pub vec_shrink_passes :
      PassesOrRefuses Ready Live backend sizing vec vec_shrink g w
        (with_wrapper backend (vec_allocation_shrink vec) w)
  unfolding with_wrapper Fails vec_allocation_shrink
  vec_shrink_passes =
      elim (makes Ready Live backend laws grow shrink provided sizing vec vec_laws g w start) [
        | inl (v, h, u, run, alive, large, none) ↦
            let (u1, push, pushed) =
              pushes Ready Live backend laws grow shrink provided sizing vec vec_laws g w start v h
                u 255 alive (omega arith) in
            elim (shrinks Ready Live backend laws grow shrink provided sizing vec vec_laws g w start
              (record v { len = v.len + 1 }) h u1 pushed (omega arith) (omega arith)) [
                | inl (v', h', u', fit, fitted, some_cap, same_len) ↦
                    let (h'', u'', ran, after) =
                      drops Ready Live backend laws grow shrink provided sizing vec vec_laws g w
                        start v' h' u' fitted (omega arith) in
                    inl (h'', inner u'', rw (run, push, fit, ran) refl, after)
                | inr (fit, refused) ↦ inr (
                    inr (
                      v,
                      u,
                      record v { len = v.len + 1 },
                      u1,
                      h,
                      run,
                      push,
                      (pushed.ready, pushed.kept),
                      (rw (run, push, fit) refl, refused),
                    ))
              ]
        | inr (inl (run, refused)) ↦ inr (inl (inl (rw run refl, refused)))
        | inr (inr (run, over)) ↦ inr (inl (inr (rw run refl, over)))
      ]
