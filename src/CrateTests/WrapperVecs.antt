-- ===== src/CrateTests/WrapperVecs.antt =====
-- What each command on a vector does in the unit tests of src/zeroizing_alloc.rs, over any backend.
use native.Mathlib.Decide.{dec_lt}
use mathlib.Core.Path.{subst}
use secmem_alloc.Base.{
  ℕ, ◌+◌, ◌^◌, ◌≤◌, ◌<◌, ◌≡◌, ◌⊎◌, inl, inr, refl, ◌∙◌, sym, arith, Outcome, done, err,
}
use secmem_alloc.Memory.{World, fill}
use secmem_alloc.Memory.Ranges.{fill-inside, fill-outside}
use secmem_alloc.Util.{Slice}
use secmem_alloc.Layout.{Layout, IsLayout, alloc_error}
use secmem_alloc.Traits.{Allocator}
use secmem_alloc.Traits.Contract.{Separate, Keeps, IsAllocator}
use secmem_alloc.Traits.Provided.{Resize, IsProvidedShrink}
use secmem_alloc.Traits.Moves.{IsMoved, provided-Resizes}
use secmem_alloc.ZeroizingAlloc.{ZeroizeAlloc, inner, outer, rewrap, allocate, zeroizing_allocator}
use secmem_alloc.ZeroizingAlloc.Wiped.{valid_layout-done, rewrap_inj}
use secmem_alloc.ZeroizingAlloc.Allocates.{OuterReady, zeroizing_allocator-IsAllocator}
use secmem_alloc.CrateTests.Vecs.{Over, Bytes, VecApi, Sizing, IsVecApi, array}
use secmem_alloc.CrateTests.Refusal.{IsAfter, Aborts, FailsToMake}
use secmem_alloc.CrateTests.Wrapper.{wrapper_methods}

-- An error of the wrapper is one of the backend.
pub refuses :
    {A : Type 0} (backend : Allocator A) (l : Layout) (u u' : World (ZeroizeAlloc A))
    → IsLayout l
    → allocate backend l u ≡ done (err alloc_error, u')
    → backend.allocate l (inner u) ≡ done (err alloc_error, inner u')
unfolding allocate
refuses backend l u u' lay ran =
    let asked : allocate backend l u ≡ rewrap (backend.allocate l (inner u)) =
      rw (valid_layout-done l u lay) refl in
    rewrap_inj (backend.allocate l (inner u)) u' (sym asked ∙ ran)

module _ {A G : Type 0} (Ready : G → World A → Type 0) (Live : G → ℕ → Layout → Type 0)
    (backend : Allocator A) (laws : IsAllocator Ready Live backend)
    (grow shrink : Resize (ZeroizeAlloc A)) (provided : IsProvidedShrink shrink) (sizing : Sizing)
    (vec : VecApi (ZeroizeAlloc A))
    (vec_laws : IsVecApi (wrapper_methods backend grow shrink) sizing vec) (g : G) (w : World A)
    (start : Ready g w) where
  -- The vector has a block, and the blocks of the start are kept and lie apart from it.
  pub record Alive (v : Bytes) (h : G) (u : World (ZeroizeAlloc A)) : Type 0 where
    pub ready : Ready h (inner u)
    pub live : Live h v.ptr (array v.cap)
    pub layout : IsLayout (array v.cap)
    pub kept : (q : ℕ) (k : Layout) → Live g q k → Keeps Ready Live q k w h (inner u)
    pub apart : (q : ℕ) (k : Layout) → Live g q k → Separate v.ptr (array v.cap) q k

  -- A call leaves such a vector with so much capacity and so many bytes in use.
  abbrev pub Leaves : ℕ → ℕ → Outcome (Bytes × World (ZeroizeAlloc A)) → Type 0
  Leaves size len o =
      (v : Bytes) × (h : G) × (u : World (ZeroizeAlloc A)) × (o ≡ done (v, u))
      × Alive v h u
      × (size ≤ v.cap)
      × (v.len ≡ len)

  wrapper_laws : IsAllocator (OuterReady Ready) Live (zeroizing_allocator backend)
  wrapper_laws = zeroizing_allocator-IsAllocator Ready Live backend laws

  pub makes :
      Leaves 9 0 (vec.with_capacity_in 9 (outer w))
      ⊎ FailsToMake Ready Live backend sizing vec w (vec.with_capacity_in 9 (outer w))
  makes =
      let req = sizing.first 9 in
      let enough = vec_laws.makes_enough 9 in
      let takes = vec_laws.makes (outer w) 9 (omega arith) in
      elim (dec_lt req (2 ^ 63)) [
        | no over ↦ inr (inr (takes.panics (omega arith), omega arith))
        | yes fits ↦
            let lay : IsLayout (array req) = record {
              power = (0, omega arith, refl);
              fits = omega arith;
            } in
            elim (wrapper_laws.allocs g (outer w) (array req) start lay) [
              | inl (s, h, u, ran, new) ↦
                  let (v, run, over, none) = takes.returns s u ran lay new.large in
                  inl (
                    v,
                    h,
                    u,
                    run,
                    record {
                      ready = new.ready;
                      live =
                          subst (λ p. Live h p (array v.cap)) (sym over.0)
                            (new.live (array v.cap) over.3 refl over.1 over.2);
                      layout = over.3;
                      kept = new.keeps;
                      apart = λ q k live. omega (arith, over.0, over.2, new.separate q k live);
                    },
                    omega (arith, over.1),
                    none,
                  )
              | inr (u', ran, ready', same) ↦ inr (
                  inl (
                    takes.aborts alloc_error u' ran lay,
                    (inner u', refuses backend (array req) (outer w) u' lay ran),
                  ))
            ]
      ]

  pub pushes :
      (v : Bytes) (h : G) (u : World (ZeroizeAlloc A)) (x : ℕ)
      → Alive v h u
      → v.len < v.cap
      → (u' : World (ZeroizeAlloc A)) × (vec.push v x u ≡ done (record v { len = v.len + 1 }, u'))
        × Alive (record v { len = v.len + 1 }) h u'
  pushes v h u x alive short =
      let m = fill u.mem (v.ptr + v.len) x 1 in
      let lent = laws.lent h (inner u) v.ptr (array v.cap) alive.ready alive.live in
      (
        record u { mem = m },
        vec_laws.pushes u v x short (lent.mapped (v.ptr + v.len) (omega arith) (omega arith)),
        record {
          ready = laws.writable h (inner u) v.ptr (array v.cap) m alive.ready alive.live (record {
            elsewhere = λ a o. fill-outside u.mem (v.ptr + v.len) x 1 a (omega (arith, o));
            still_mapped = λ a i j. ground (
              arith,
              lent.mapped a,
              fill-inside u.mem (v.ptr + v.len) x 1 a,
              fill-outside u.mem (v.ptr + v.len) x 1 a,
            );
          });
          live = alive.live;
          layout = alive.layout;
          kept = λ q k live.
              let (still, same) = alive.kept q k live in
              (
                still,
                λ a i j.
                    fill-outside u.mem (v.ptr + v.len) x 1 a (omega (arith, alive.apart q k live))
                    ∙ same a i j,
              );
          apart = alive.apart;
        },
      )

  -- A vector whose block has been moved.
  moved-Alive :
      (v v' : Bytes) (h h' : G) (u u' : World (ZeroizeAlloc A)) (count req : ℕ) (s : Slice)
      → Alive v h u
      → Over req s v'
      → IsMoved
          (OuterReady Ready)
          Live
          (zeroizing_allocator backend)
          count
          v.ptr
          (array v.cap)
          (array req)
          h
          u
          s
          h'
          u'
      → Alive v' h' u'
  moved-Alive v v' h h' u u' count req s alive over moved = record {
    ready = moved.ready;
    live =
        subst (λ p. Live h' p (array v'.cap)) (sym over.0)
          (moved.live (array v'.cap) over.3 refl over.1 over.2);
    layout = over.3;
    kept = λ q k live.
        let (still, same) = alive.kept q k live in
        let (still', same') = moved.others q k still (alive.apart q k live) in
        (still', λ a i j. same' a i j ∙ same a i j);
    apart = λ q k live. omega (arith, over.0, over.2, moved.separate q k (alive.kept q k live).0);
  }

  pub shrinks :
      (v : Bytes) (h : G) (u : World (ZeroizeAlloc A))
      → Alive v h u
      → 0 < v.len
      → v.len ≤ v.cap
      → Leaves v.len v.len (vec.shrink_to_fit v u)
        ⊎ Aborts Ready Live backend (array v.len) (inner u) (vec.shrink_to_fit v u)
  shrinks v h u alive pos le = elim (dec_lt v.len v.cap) [
    | no full ↦ inl (v, h, u, vec_laws.keeps_fit u v (omega arith), alive, le, refl)
    | yes more ↦
        let takes = vec_laws.shrinks u v pos more in
        let lay : IsLayout (array v.len) = record {
          power = alive.layout.power;
          fits = omega (arith, alive.layout.fits);
        } in
        elim (provided-Resizes (OuterReady Ready) Live (zeroizing_allocator backend) wrapper_laws h
          u v.ptr (array v.cap) (array v.len) alive.live lay shrink alive.ready
          (λ old new. new.size) provided le (omega arith)) [
            | inl (s, h', u', ran, moved) ↦
                let (v', run, over, same_len) = takes.returns s u' ran lay moved.large in
                let alive' = moved-Alive v v' h h' u u' v.len v.len s alive over moved in
                inl (v', h', u', run, alive', omega (arith, over.1), same_len)
            | inr (u', refused, ran, ready', same) ↦ inr (
              takes.aborts alloc_error u' ran lay,
              (inner u', refuses backend (array v.len) u u' lay refused),
            )
          ]
  ]

  pub drops :
      (v : Bytes) (h : G) (u : World (ZeroizeAlloc A))
      → Alive v h u
      → 0 < v.cap
      → (h' : G) × (u' : World (ZeroizeAlloc A)) × (vec.drop v u ≡ done (tt, u'))
        × IsAfter Ready Live backend g w h' (inner u')
  drops v h u alive pos =
      let (h', u', ran, ready', others) =
        wrapper_laws.deallocs h u v.ptr (array v.cap) alive.ready alive.live in
      (
        h',
        u',
        vec_laws.gives_back u v pos ∙ ran,
        (
          ready',
          λ q k live.
              let (still, same) = alive.kept q k live in
              let (still', same') = others q k still (alive.apart q k live) in
              (still', λ a i j. same' a i j ∙ same a i j),
        ),
      )
