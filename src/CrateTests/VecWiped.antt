-- ===== src/CrateTests/VecWiped.antt =====
-- A vector over the wrapper of src/zeroizing_alloc.rs, the use that the doc of the module gives: what is
-- left of its bytes where it was, when it has grown.
use native.Mathlib.Decide.{dec_lt}
use mathlib.Core.Path.{subst}
use secmem_alloc.Base.{
  ℕ, ◌+◌, ◌^◌, ◌≤◌, ◌<◌, ◌≡◌, ◌⊎◌, inl, inr, refl, sym, ◌∙◌, ap, arith, Outcome, done, fault, abort,
  panic, err,
}
use secmem_alloc.Memory.{World}
use secmem_alloc.Layout.{Layout, IsLayout, alloc_error}
use secmem_alloc.Traits.{Allocator}
use secmem_alloc.Traits.Contract.{KeepsOthers, IsAllocator}
use secmem_alloc.Traits.Provided.{Resize, IsProvidedGrow}
use secmem_alloc.ZeroizingAlloc.{ZeroizeAlloc, inner}
use secmem_alloc.ZeroizingAlloc.Allocates.{OuterReady}
use secmem_alloc.ZeroizingAlloc.Resize.{GivesBackWiped, resize_wipes}
use secmem_alloc.CrateTests.Vecs.{Bytes, VecApi, Sizing, IsVecApi, array}
use secmem_alloc.CrateTests.Wrapper.{wrapper_methods}
use secmem_alloc.CrateTests.WrapperVecs.{refuses}

module _ {A G : Type 0} (Ready : G → World A → Type 0) (Live : G → ℕ → Layout → Type 0)
    (backend : Allocator A) where
  -- The vector `v` has become `v'`, with room for so many bytes and with the same ones in use. All other
  -- blocks are kept, and where it was everything is 0.
  pub record HasGrown (room : ℕ) (v : Bytes) (g : G) (w : World (ZeroizeAlloc A)) (v' : Bytes)
      (g' : G) (w' : World (ZeroizeAlloc A)) : Type 0 where
    pub ready : OuterReady Ready g' w'
    pub live : Live g' v'.ptr (array v'.cap)
    pub room_for : room ≤ v'.cap
    pub same_len : v'.len ≡ v.len
    pub contents : (i : ℕ) → i < v.len → w'.mem (v'.ptr + i) ≡ w.mem (v.ptr + i)
    pub others : KeepsOthers (OuterReady Ready) Live v.ptr (array v.cap) g w g' w'
    pub wiped : GivesBackWiped Ready Live backend v.ptr (array v.cap) w'

  -- The vector has asked for the capacity `req`, or rather could not, since it is too large.
  abbrev pub GrowsWiping :
      ℕ → ℕ → Bytes → G → World (ZeroizeAlloc A) → Outcome (Bytes × World (ZeroizeAlloc A)) → Type 0
  GrowsWiping room req v g w o =
      ((v' : Bytes) × (g' : G) × (w' : World (ZeroizeAlloc A)) × (o ≡ done (v', w'))
        × HasGrown room v g w v' g' w')
      ⊎ (((w' : World A) × (o ≡ fault abort)
            × (backend.allocate (array req) (inner w) ≡ done (err alloc_error, w')))
          ⊎ ((o ≡ fault panic) × (2 ^ 63 ≤ req)))

module _ {A G : Type 0} (Ready : G → World A → Type 0) (Live : G → ℕ → Layout → Type 0)
    (backend : Allocator A) (laws : IsAllocator Ready Live backend)
    (grow shrink : Resize (ZeroizeAlloc A)) (provided : IsProvidedGrow grow) (sizing : Sizing)
    (vec : VecApi (ZeroizeAlloc A))
    (vec_laws : IsVecApi (wrapper_methods backend grow shrink) sizing vec) where
  -- If the backend keeps the contract of `Allocator`, and with the provided `grow` and any `Vec`
  -- that does what is documented: `reserve` on a vector over the wrapper that has to grow
  -- returns a vector with the room that is asked for and the same bytes in use, with all other
  -- blocks kept, and ends with `deallocate` of the backend on a memory in which the whole old
  -- block is 0; or it aborts, and `allocate` of the backend returns an error for the capacity
  -- that the vector has asked for, in the state of the call; or it panics, and that capacity is
  -- 2^63 bytes or more.
  pub reserve_wipes :
      (g : G) (w : World (ZeroizeAlloc A)) (v : Bytes) (n : ℕ)
      → OuterReady Ready g w
      → Live g v.ptr (array v.cap)
      → 0 < v.cap
      → v.len ≤ v.cap
      → v.cap < v.len + n
      → GrowsWiping Ready Live backend (v.len + n) (sizing.larger v n) v g w (vec.reserve v n w)
  reserve_wipes g w v n ready live pos le short =
      let req = sizing.larger v n in
      let enough = vec_laws.reserves_enough v n short in
      let takes = vec_laws.reserves w v n pos short in
      elim (dec_lt req (2 ^ 63)) [
        | no over ↦ inr (inr (takes.panics (omega arith), omega arith))
        | yes fits ↦
            let lay : IsLayout (array req) = record {
              power = (0, omega arith, refl);
              fits = omega arith;
            } in
            elim (resize_wipes Ready Live backend laws grow (λ old new. old.size) provided g w v.ptr
              (array v.cap) (array req) ready live lay (omega arith) (omega arith)) [
                | inl (s, g', w', ran, moved, wiped) ↦
                    let (v', run, over, same_len) = takes.returns s w' ran lay moved.large in
                    inl (
                      v',
                      g',
                      w',
                      run,
                      record {
                        ready = moved.ready;
                        live =
                            subst (λ p. Live g' p (array v'.cap)) (sym over.0)
                              (moved.live (array v'.cap) over.3 refl over.1 over.2);
                        room_for = omega (arith, over.1);
                        same_len = same_len;
                        contents = λ i h.
                            ap (λ (p : ℕ). w'.mem (p + i)) over.0 ∙ moved.contents i (omega arith);
                        others = moved.others;
                        wiped = wiped;
                      },
                    )
                | inr (w', refused, ran, ready', same) ↦ inr (
                    inl (
                      inner w',
                      takes.aborts alloc_error w' ran lay,
                      refuses backend (array req) w w' lay refused,
                    ))
              ]
      ]
