-- ===== src/ZeroizingAlloc/Discreet.antt =====
-- What the wrapper of src/zeroizing_alloc.rs lets out of the blocks that it gives back.
use secmem_alloc.Base.{ℕ, ◌≡◌, inl, inr, refl, ◌∙◌, sym, ap, Outcome}
use secmem_alloc.Memory.{World, fill}
use secmem_alloc.Memory.Ranges.{fill-inside, fill-outside}
use secmem_alloc.Zeroize.Wipe.{zeroize_mem-done}
use secmem_alloc.Layout.{Layout}
use secmem_alloc.SecAlloc.Blocks.{Inside-or_outside}
use secmem_alloc.Traits.{Allocator, WritesIn-fill}
use secmem_alloc.Traits.Contract.{IsAllocator}
use secmem_alloc.Traits.Discreet.{Beyond, Anywhere, SameOutcome, IsDiscreet}
use secmem_alloc.ZeroizingAlloc.{
  ZeroizeAlloc, inner, outer, rewrap, allocate, allocate_zeroed, deallocate, zeroizing_allocator,
}
use secmem_alloc.ZeroizingAlloc.Wiped.{valid_layout-done}
use secmem_alloc.ZeroizingAlloc.Allocates.{OuterReady}

module _ {A G : Type 0} (Ready : G → World A → Type 0) (Live : G → ℕ → Layout → Type 0)
    (backend : Allocator A) (laws : IsAllocator Ready Live backend)
    (discreet : IsDiscreet Ready Live Anywhere backend) where
  -- What the backend sees of a block that is given back.
  abbrev wiped : World (ZeroizeAlloc A) → ℕ → Layout → World A
  wiped w p l = record (inner w) { mem = fill w.mem p 0 l.size }

  same_wiped :
      (w w' : World (ZeroizeAlloc A)) (p : ℕ) (l : Layout) (x : ℕ)
      → (Beyond p l x → w.mem x ≡ w'.mem x)
      → (wiped w p l).mem x ≡ (wiped w' p l).mem x
  same_wiped w w' p l x same = elim (Inside-or_outside x (record { addr = p; size = l.size })) [
    | inl i ↦ fill-inside w.mem p 0 l.size x i.0 i.1 ∙ sym (fill-inside w'.mem p 0 l.size x i.0 i.1)
    | inr beyond ↦
        fill-outside w.mem p 0 l.size x beyond
        ∙ same beyond
        ∙ sym (fill-outside w'.mem p 0 l.size x beyond)
  ]

  outer_outcome :
      {B : Type 0} {o o' : Outcome (B × World A)} (D : ℕ → Type 0)
      → SameOutcome D o o'
      → SameOutcome D (rewrap o) (rewrap o')
  outer_outcome D (r, w, w', ran, ran', state, same) =
      (r, outer w, outer w', rw ran refl, rw ran' refl, rw state refl, same)

  inner_state :
      (w w' : World (ZeroizeAlloc A)) → w.alloc ≡ w'.alloc → (inner w).alloc ≡ (inner w').alloc
  inner_state w w' = ap (λ (z : ZeroizeAlloc A). z.backend_alloc)

  -- The wrapper and two states that differ in bytes of live blocks, and of a block that it gets back.
  pub zeroizing_allocator-IsDiscreet :
      IsDiscreet (OuterReady Ready) Live Beyond (zeroizing_allocator backend)
  unfolding allocate allocate_zeroed deallocate
  zeroizing_allocator-IsDiscreet = record {
    allocates = λ D g g' w w' l ready ready' hidden hidden' state same lay.
        rw (valid_layout-done l w lay, valid_layout-done l w' lay)
          (outer_outcome D (
            discreet.allocates D g g' (inner w) (inner w') l ready ready' hidden hidden'
              (inner_state w w' state) same lay));
    allocates_zeroed = λ D g g' w w' l ready ready' hidden hidden' state same lay.
        rw (valid_layout-done l w lay, valid_layout-done l w' lay)
          (outer_outcome D (
            discreet.allocates_zeroed D g g' (inner w) (inner w') l ready ready' hidden hidden'
              (inner_state w w' state) same lay));
    deallocates = λ D g g' w w' p l ready ready' live live' rest rest' state same.
        let h = laws.lent g (inner w) p l ready live in
        let h' = laws.lent g' (inner w') p l ready' live' in
        rw
          (
            valid_layout-done l w h.layout,
            valid_layout-done l w' h.layout,
            zeroize_mem-done p l.size w h.mapped,
            zeroize_mem-done p l.size w' h'.mapped,
          )
          (outer_outcome D (
            discreet.deallocates D g g' (wiped w p l) (wiped w' p l) p l
              (laws.writable g (inner w) p l _ ready live (WritesIn-fill w.mem p l))
              (laws.writable g' (inner w') p l _ ready' live' (WritesIn-fill w'.mem p l)) live live'
              rest rest' (inner_state w w' state)
              (λ x out seen. same_wiped w w' p l x (λ beyond. same x out beyond))));
  }
