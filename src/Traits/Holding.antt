-- ===== src/Traits/Holding.antt =====
-- What the clients of an allocator that keeps its contract hold, after each call.
use mathlib.Core.Path.{subst}
use secmem_alloc.Base.{ℕ, ◌≡◌, inl, inr, refl, List, ◌∷◌, ◌++◌, arith, Outcome, done, done_inj}
use secmem_alloc.Memory.{Memory, World}
use secmem_alloc.Layout.{Layout, IsLayout}
use secmem_alloc.Traits.{Allocator, WritesIn}
use secmem_alloc.Traits.Contract.{Allocates, IsAllocator}
use secmem_alloc.Traits.Runs.{
  Lease, Holding, Answer, leased, Allotted, Allotted-middle, Allotted-keeps, Allotted-others,
  SeparateAll-new,
}

module _ {A G : Type 0} (Ready : G → World A → Type 0) (Live : G → ℕ → Layout → Type 0) where
  -- The state fits the blocks that are held.
  abbrev pub IsHolding : G → Holding A → Type 0
  IsHolding g s = Ready g s.world × Allotted Ready Live g s.held

module _ {A G : Type 0} (Ready : G → World A → Type 0) (Live : G → ℕ → Layout → Type 0)
    (a : Allocator A) (laws : IsAllocator Ready Live a) where
  pub allocated-IsHolding :
      (g : G) (t : Holding A) (l : Layout) (r : Answer) (w : World A)
      (o : Outcome (Answer × World A))
      → IsHolding Ready Live g t
      → IsLayout l
      → Allocates Ready Live l g t.world o
      → o ≡ done (r, w)
      → (g' : G) × IsHolding Ready Live g' (record { held = leased r l t.held; world = w })
  allocated-IsHolding g t l r w o (ready, allotted) lay allocates run = elim allocates [
    | inl (s, g', w', ran, new) ↦ (
      g',
      subst
          (λ (q : Answer × World A).
            IsHolding Ready Live g' (record { held = leased q.0 l t.held; world = q.1 }))
          (done_inj ran run)
          (
            new.ready,
            (
              new.live l lay refl (omega arith) new.large,
              SeparateAll-new Ready Live g l s t.held new.large new.separate allotted,
              Allotted-keeps Ready Live g g' t.held (λ q k live. (new.keeps q k live).0) allotted,
            ),
          ),
    )
    | inr (w', ran, ready', same) ↦ (
      g,
      subst
          (λ (q : Answer × World A).
            IsHolding Ready Live g (record { held = leased q.0 l t.held; world = q.1 }))
          (done_inj ran run) (ready', allotted),
    )
  ]

  pub released-IsHolding :
      (g : G) (t : Holding A) (xs ys : List Lease) (c : Lease) (w : World A)
      → IsHolding Ready Live g t
      → t.held ≡ xs ++ c ∷ ys
      → a.deallocate c.addr c.layout t.world ≡ done (tt, w)
      → (g' : G) × IsHolding Ready Live g' (record { held = xs ++ ys; world = w })
  released-IsHolding g t xs ys c w (ready, allotted) split run =
      let (live, sep, rest) =
        Allotted-middle Ready Live g c xs ys
          (subst (λ cs. Allotted Ready Live g cs) split allotted) in
      let (g', w', ran, ready', others) = laws.deallocs g t.world c.addr c.layout ready live in
      (
        g',
        subst
            (λ (q : Unit {0} × World A).
              IsHolding Ready Live g' (record { held = xs ++ ys; world = q.1 }))
            (done_inj ran run)
            (
              ready',
              Allotted-others Ready Live g g' c (xs ++ ys) (λ q k h o. (others q k h o).0) sep rest,
            ),
      )

  pub written-IsHolding :
      (g : G) (t : Holding A) (xs ys : List Lease) (c : Lease) (m : Memory)
      → IsHolding Ready Live g t
      → t.held ≡ xs ++ c ∷ ys
      → WritesIn c.addr c.layout t.world.mem m
      → IsHolding Ready Live g (record { held = t.held; world = record t.world { mem = m } })
  written-IsHolding g t xs ys c m (ready, allotted) split wr =
      let (live, sep, rest) =
        Allotted-middle Ready Live g c xs ys
          (subst (λ cs. Allotted Ready Live g cs) split allotted) in
      (laws.writable g t.world c.addr c.layout m ready live wr, allotted)
