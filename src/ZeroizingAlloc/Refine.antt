-- ===== src/ZeroizingAlloc/Refine.antt =====
-- The wrapper of src/zeroizing_alloc.rs and the contract of its backend.
use secmem_alloc.Base.{
  ◌+◌, ◌≤◌, ◌<◌, sym, ◌⊎◌, inl, inr, some, ℕ, ◌≡◌, arith, done, refl, ◌∙◌, pos→==, M,
}
use secmem_alloc.Memory.{World, fill}
use secmem_alloc.Memory.Ranges.{fill-inside, fill-outside}
use secmem_alloc.Traits.{GlobalAlloc, WritesIn-fill}
use secmem_alloc.Traits.Provided.{IsProvidedRealloc}
use secmem_alloc.Layout.{Layout, IsLayout}
use secmem_alloc.ZeroizingAlloc.{
  ZeroizeAlloc, inner, outer, alloc, alloc_zeroed, zeroizing, debug_handleallocerror_precondition,
}
use secmem_alloc.ZeroizingAlloc.Contract.{
  IsHeld, KeepsOthers, IsAllocated, IsGlobalAlloc, Reallocates,
}
use secmem_alloc.ZeroizingAlloc.Realloc.{realloc-Reallocates, realloc-Releases}
use secmem_alloc.ZeroizingAlloc.Wiped.{valid_layout-done, dealloc-eq, rewrap_inj}

module _ {A : Type 0} (Ready : World A → Type 0) (Live : World A → ℕ → Layout → Type 0)
    (backend : GlobalAlloc A) (laws : IsGlobalAlloc Ready Live backend) where
  abbrev OuterReady : World (ZeroizeAlloc A) → Type 0
  OuterReady w = Ready (inner w)

  abbrev OuterLive : World (ZeroizeAlloc A) → ℕ → Layout → Type 0
  OuterLive w p l = Live (inner w) p l

  outer-IsAllocated :
      {l : Layout} {w : World (ZeroizeAlloc A)} {p : ℕ} {w' : World A}
      → IsAllocated Ready Live l (inner w) p w'
      → IsAllocated OuterReady OuterLive l w p (outer w')
  outer-IsAllocated a = record { ready = a.ready; keeps = a.keeps; block = a.block }

  outer_held : (w : World (ZeroizeAlloc A)) (p : ℕ) (l : Layout) → OuterLive w p l → IsHeld w p l
  outer_held w p l live =
      let h = laws.held (inner w) p l live in
      record {
        layout = h.layout;
        nonempty = h.nonempty;
        nonnull = h.nonnull;
        small = h.small;
        mapped = h.mapped;
      }

  outer_deallocs :
      (w : World (ZeroizeAlloc A)) (p : ℕ) (l : Layout)
      → OuterReady w
      → OuterLive w p l
      → (w' : World (ZeroizeAlloc A)) × ((zeroizing backend).dealloc p l w ≡ done (tt, w'))
        × OuterReady w'
        × KeepsOthers OuterReady OuterLive p l w w'
  outer_deallocs w p l ready live =
      let (ready1, kept) =
        laws.writable (inner w) p l (fill w.mem p 0 l.size) ready live (WritesIn-fill w.mem p l) in
      let (w', ran, ready', others) =
        laws.deallocs (record (inner w) { mem = fill w.mem p 0 l.size }) p l ready1
          (kept p l live) in
      (
        outer w',
        dealloc-eq backend w p l (outer_held w p l live) ∙ rw ran refl,
        ready',
        λ q k h o.
            let (still, same) = others q k (kept q k h) o in
            (still, λ a x y. same a x y ∙ fill-outside w.mem p 0 l.size a (omega arith)),
      )

  -- If the backend keeps the contract of `GlobalAlloc`, so does the wrapper around it: with the
  -- same blocks alive every allowed call passes the checks and returns, an allocation shares no
  -- byte with a live block, and no call changes a byte of a live block, but the one it frees.
  pub zeroizing-IsGlobalAlloc : IsGlobalAlloc OuterReady OuterLive (zeroizing backend)
  unfolding alloc alloc_zeroed debug_handleallocerror_precondition
  zeroizing-IsGlobalAlloc = record {
    held = outer_held;
    writable = λ w p l m ready live wr.
        laws.writable (inner w) p l m ready live
          (record { elsewhere = wr.elsewhere; still_mapped = wr.still_mapped });
    allocs = λ w l ready lay pos.
        let (p, w', ran, a) = laws.allocs (inner w) l ready lay pos in
        (
          p,
          outer w',
          rw (valid_layout-done l w lay, pos→== l.size pos, ran) refl,
          outer-IsAllocated a,
        );
    allocs_zeroed = λ w l ready lay pos.
        let (p, w', ran, a, zeros) = laws.allocs_zeroed (inner w) l ready lay pos in
        (
          p,
          outer w',
          rw (valid_layout-done l w lay, pos→== l.size pos, ran) refl,
          outer-IsAllocated a,
          zeros,
        );
    deallocs = outer_deallocs;
  }

  -- If the backend keeps the contract of `GlobalAlloc`, and for a new size that is not 0, the
  -- provided `realloc` of a live block through the wrapper returns a live and aligned block that
  -- begins with the bytes of the old one, as many as both have, with no other live block
  -- changed, and ends with `dealloc` of the backend on a memory in which the whole old block is
  -- 0; or it returns 0, and then the old block is kept too.
  pub realloc_wipes :
      (realloc : GlobalAlloc (ZeroizeAlloc A) → ℕ → Layout → ℕ → M (World (ZeroizeAlloc A)) ℕ)
      → IsProvidedRealloc realloc
      → (w : World (ZeroizeAlloc A)) (p : ℕ) (l : Layout) (new_size : ℕ) → OuterReady w
      → OuterLive w p l
      → IsLayout (record { size = new_size; align = l.align })
      → 0 < new_size
      → Reallocates OuterReady OuterLive p l
          (record { size = new_size; align = l.align })
          w
          (realloc (zeroizing backend) p l new_size w)
        × ((r : ℕ) × (w' : World (ZeroizeAlloc A)) × (realloc (zeroizing backend) p l new_size w
              ≡ done (r, w'))
            × ((r ≡ 0)
                ⊎ ((v : World A) × ((a : ℕ) → p ≤ a → a < p + l.size → v.mem a ≡ some 0)
                    × (backend.dealloc p l v ≡ done (tt, inner w')))))
  realloc_wipes realloc provided w p l new_size ready live lay pos =
      let (r, w', ran, end) =
        realloc-Releases OuterReady OuterLive (zeroizing backend) zeroizing-IsGlobalAlloc realloc
          provided w p l new_size ready live lay pos in
      (
        realloc-Reallocates OuterReady OuterLive (zeroizing backend) zeroizing-IsGlobalAlloc realloc
            provided w p l new_size ready live lay pos,
        (
          r,
          w',
          ran,
          elim end [
            | inl none ↦ inl none
            | inr (v, live_v, freed) ↦ inr (
              record (inner v) { mem = fill v.mem p 0 l.size },
              fill-inside v.mem p 0 l.size,
              rewrap_inj _ w' (sym (dealloc-eq backend v p l (outer_held v p l live_v)) ∙ freed),
            )
          ],
        ),
      )
