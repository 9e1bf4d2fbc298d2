-- ===== src/ZeroizingAlloc/Allocates.antt =====
-- The wrapper of src/zeroizing_alloc.rs and the contract of `Allocator`.
use secmem_alloc.Base.{ℕ, ◌≡◌, inl, inr, refl, ◌∙◌, arith, done}
use secmem_alloc.Memory.{World, fill}
use secmem_alloc.Memory.Ranges.{fill-outside}
use secmem_alloc.Zeroize.Wipe.{zeroize_mem-done}
use secmem_alloc.Util.{Slice}
use secmem_alloc.Layout.{Layout, IsLayout}
use secmem_alloc.Traits.{Allocator, WritesIn-fill}
use secmem_alloc.Traits.Contract.{
  IsLent, IsNew, Allocates, AllocatesZeroed, KeepsOthers, IsAllocator,
}
use secmem_alloc.ZeroizingAlloc.{
  ZeroizeAlloc, inner, outer, allocate, allocate_zeroed, deallocate, zeroizing_allocator,
}
use secmem_alloc.ZeroizingAlloc.Wiped.{valid_layout-done}

-- The wrapper is ready when its backend is.
abbrev pub OuterReady :
    {A G : Type 0} → (G → World A → Type 0) → G → World (ZeroizeAlloc A) → Type 0
OuterReady Ready g w = Ready g (inner w)

module _ {A G : Type 0} (Ready : G → World A → Type 0) (Live : G → ℕ → Layout → Type 0)
    (backend : Allocator A) (laws : IsAllocator Ready Live backend) where
  outer-IsNew :
      {l : Layout} {g : G} {w : World (ZeroizeAlloc A)} {s : Slice} {g' : G} {w' : World A}
      → IsNew Ready Live l g (inner w) s g' w'
      → IsNew (OuterReady Ready) Live l g w s g' (outer w')
  outer-IsNew n = record {
    ready = n.ready;
    large = n.large;
    aligned = n.aligned;
    live = n.live;
    keeps = n.keeps;
    separate = n.separate;
  }

  outer-IsLent :
      (g : G) (w : World (ZeroizeAlloc A)) (p : ℕ) (l : Layout)
      → OuterReady Ready g w
      → Live g p l
      → IsLent w p l
  outer-IsLent g w p l ready live =
      let h = laws.lent g (inner w) p l ready live in
      record { layout = h.layout; nonnull = h.nonnull; small = h.small; mapped = h.mapped }

  outer_allocs :
      (g : G) (w : World (ZeroizeAlloc A)) (l : Layout)
      → OuterReady Ready g w
      → IsLayout l
      → Allocates (OuterReady Ready) Live l g w (allocate backend l w)
  unfolding allocate
  outer_allocs g w l ready lay = elim (laws.allocs g (inner w) l ready lay) [
    | inl (s, g', w', ran, new) ↦
        inl (s, g', outer w', rw (valid_layout-done l w lay, ran) refl, outer-IsNew new)
    | inr (w', ran, ready', same) ↦
        inr (outer w', rw (valid_layout-done l w lay, ran) refl, ready', same)
  ]

  outer_allocs_zeroed :
      (g : G) (w : World (ZeroizeAlloc A)) (l : Layout)
      → OuterReady Ready g w
      → IsLayout l
      → AllocatesZeroed (OuterReady Ready) Live l g w (allocate_zeroed backend l w)
  unfolding allocate_zeroed
  outer_allocs_zeroed g w l ready lay = elim (laws.allocs_zeroed g (inner w) l ready lay) [
    | inl (s, g', w', ran, new, zeros) ↦
        inl (s, g', outer w', rw (valid_layout-done l w lay, ran) refl, outer-IsNew new, zeros)
    | inr (w', ran, ready', same) ↦
        inr (outer w', rw (valid_layout-done l w lay, ran) refl, ready', same)
  ]

  outer_deallocs :
      (g : G) (w : World (ZeroizeAlloc A)) (p : ℕ) (l : Layout)
      → OuterReady Ready g w
      → Live g p l
      → (g' : G) × (w' : World (ZeroizeAlloc A)) × (deallocate backend p l w ≡ done (tt, w'))
        × OuterReady Ready g' w'
        × KeepsOthers (OuterReady Ready) Live p l g w g' w'
  unfolding deallocate
  outer_deallocs g w p l ready live =
      let h = laws.lent g (inner w) p l ready live in
      let wiped =
        laws.writable g (inner w) p l (fill w.mem p 0 l.size) ready live
          (WritesIn-fill w.mem p l) in
      let (g', w', ran, ready', others) =
        laws.deallocs g (record (inner w) { mem = fill w.mem p 0 l.size }) p l wiped live in
      (
        g',
        outer w',
        rw (valid_layout-done l w h.layout, zeroize_mem-done p l.size w h.mapped, ran) refl,
        ready',
        λ q k live_q apart.
            let (still, same) = others q k live_q apart in
            (still, λ a x y. same a x y ∙ fill-outside w.mem p 0 l.size a (omega arith)),
      )

  -- If the backend keeps the contract of `Allocator`, so does the wrapper around it: `allocate`
  -- and `allocate_zeroed` return new blocks, and zeroed ones, apart from the live blocks, or an
  -- error; `deallocate` of a live block returns; and no call changes a byte of a live block, but
  -- the one it frees.
  pub zeroizing_allocator-IsAllocator :
      IsAllocator (OuterReady Ready) Live (zeroizing_allocator backend)
  zeroizing_allocator-IsAllocator = record {
    lent = outer-IsLent;
    writable = λ g w p l m ready live wr.
        laws.writable g (inner w) p l m ready live
          (record { elsewhere = wr.elsewhere; still_mapped = wr.still_mapped });
    allocs = outer_allocs;
    allocs_zeroed = outer_allocs_zeroed;
    deallocs = outer_deallocs;
  }
