-- ===== src/Traits/Resizer.antt =====
-- The contract of `Allocator`, as far as it speaks of `grow` and `shrink`.
use secmem_alloc.Base.{
  ℕ, ◌+◌, ◌%◌, ◌≤◌, ◌<◌, ◌≡◌, ◌⊎◌, inl, inr, Outcome, done, Result, ok, err, M, arith,
}
use secmem_alloc.Memory.{World}
use secmem_alloc.Util.{Slice}
use secmem_alloc.Layout.{Layout, IsLayout, AllocError, alloc_error}
use secmem_alloc.Traits.{Allocator, SameBytes}
use secmem_alloc.Traits.Contract.{Separate, IsNew, KeepsOthers, IsAllocator}
use secmem_alloc.Traits.Provided.{Resize, IsProvidedGrow, IsProvidedShrink}
use secmem_alloc.Traits.Moves.{Resizes, provided-Resizes}

module _ {A G : Type 0} (Ready : G → World A → Type 0) (Live : G → ℕ → Layout → Type 0) where
  -- The block at `p` has become `s`, which begins with its first `count` bytes and shares no byte with
  -- another one. All other blocks are kept.
  pub record IsResizedTo (count p : ℕ) (old new : Layout) (g : G) (w : World A) (s : Slice) (g' : G)
      (w' : World A) : Type 0 where
    pub ready : Ready g' w'
    pub live :
        (k : Layout)
        → IsLayout k
        → k.align ≡ new.align
        → new.size ≤ k.size
        → k.size ≤ s.len
        → Live g' s.addr k
    pub large : new.size ≤ s.len
    pub aligned : s.addr % new.align ≡ 0
    pub contents : (i : ℕ) → i < count → w'.mem (s.addr + i) ≡ w.mem (p + i)
    pub others : KeepsOthers Ready Live p old g w g' w'
    pub separate :
        (q : ℕ) (k : Layout)
        → Live g q k
        → Separate p old q k
        → Separate s.addr (record { size = s.len; align = new.align }) q k

  -- The block is resized, or an error is returned, and then nothing changes for the owners of blocks.
  abbrev pub ResizesTo :
      ℕ → ℕ → Layout → Layout → G → World A → Outcome (Result Slice AllocError × World A) → Type 0
  ResizesTo count p old new g w o =
      ((s : Slice) × (g' : G) × (w' : World A) × (o ≡ done (ok s, w'))
        × IsResizedTo count p old new g w s g' w')
      ⊎ ((w' : World A) × (o ≡ done (err alloc_error, w'))
          × Ready g w'
          × ((q : ℕ) (k : Layout) → Live g q k → SameBytes q k w.mem w'.mem))

  pub record IsResizer (grow shrink : ℕ → Layout → Layout → M (World A) (Result Slice AllocError))
      : Type 0 where
    pub grows :
        (g : G) (w : World A) (p : ℕ) (old new : Layout)
        → Ready g w
        → Live g p old
        → IsLayout new
        → old.size ≤ new.size
        → ResizesTo old.size p old new g w (grow p old new w)
    pub shrinks :
        (g : G) (w : World A) (p : ℕ) (old new : Layout)
        → Ready g w
        → Live g p old
        → IsLayout new
        → new.size ≤ old.size
        → ResizesTo new.size p old new g w (shrink p old new w)

  -- A new block in the place of one of which no byte matters.
  pub IsNew-IsResizedTo :
      (count p : ℕ) (old new : Layout) (g g' : G) (w w' : World A) (s : Slice)
      → count ≡ 0
      → IsNew Ready Live new g w s g' w'
      → IsResizedTo count p old new g w s g' w'
  IsNew-IsResizedTo count p old new g g' w w' s none found = record {
    ready = found.ready;
    live = found.live;
    large = found.large;
    aligned = found.aligned;
    contents = λ i h. absurd (omega arith);
    others = λ q k live apart. found.keeps q k live;
    separate = λ q k live apart. found.separate q k live;
  }

  moved-ResizesTo :
      (a : Allocator A) (count p : ℕ) (old new : Layout) (g : G) (w : World A)
      (o : Outcome (Result Slice AllocError × World A))
      → Resizes Ready Live a count p old new g w o
      → ResizesTo count p old new g w o
  moved-ResizesTo a count p old new g w o (inl (s, g', w', ran, m)) = inl (
    s,
    g',
    w',
    ran,
    record {
      ready = m.ready;
      live = m.live;
      large = m.large;
      aligned = m.aligned;
      contents = m.contents;
      others = m.others;
      separate = λ q k live apart. m.separate q k live;
    },
  )
  moved-ResizesTo a count p old new g w o (inr (w', refused, ran, ready, same)) =
      inr (w', ran, ready, same)

  -- The provided methods keep the contract, if those that they call do.
  pub provided-IsResizer :
      (a : Allocator A)
      → IsAllocator Ready Live a
      → (grow shrink : Resize A) → IsProvidedGrow grow
      → IsProvidedShrink shrink
      → IsResizer (grow a) (shrink a)
  provided-IsResizer a laws grow shrink provided_grow provided_shrink = record {
    grows = λ g w p old new ready live lay le.
        moved-ResizesTo a old.size p old new g w (grow a p old new w) (
          provided-Resizes Ready Live a laws g w p old new live lay grow ready (λ old new. old.size)
            provided_grow (omega arith) le);
    shrinks = λ g w p old new ready live lay le.
        moved-ResizesTo a new.size p old new g w (shrink a p old new w) (
          provided-Resizes Ready Live a laws g w p old new live lay shrink ready
            (λ old new. new.size) provided_shrink le (omega arith));
  }
