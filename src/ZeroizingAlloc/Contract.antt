-- ===== src/ZeroizingAlloc/Contract.antt =====
-- The contract of `GlobalAlloc`, as src/zeroizing_alloc.rs relies on it and must keep it.
use secmem_alloc.Base.{ℕ, ◌+◌, ◌%◌, ◌≤◌, ◌<◌, ◌≡◌, ◌⊎◌, true, Outcome, done, usize_mod}
use secmem_alloc.Memory.{Memory, World, is_mapped}
use secmem_alloc.Layout.{Layout, IsLayout}
use secmem_alloc.Traits.{GlobalAlloc, Apart, SameBytes, Zeros, WritesIn}

-- What an allocated block is to its owner.
pub record IsHeld {A : Type 0} (w : World A) (p : ℕ) (l : Layout) : Type 0 where
  pub layout : IsLayout l
  pub nonempty : 0 < l.size
  pub nonnull : 0 < p
  pub small : p + l.size < usize_mod
  pub mapped : (a : ℕ) → p ≤ a → a < p + l.size → is_mapped (w.mem a) ≡ true

-- An allocator has an invariant `Ready`; and `Live w p l` says that the block at `p` was allocated
-- with the layout `l` and has not been given back.
module _ {A : Type 0} (Ready : World A → Type 0) (Live : World A → ℕ → Layout → Type 0) where
  -- A live block is still live, and its bytes are the same.
  abbrev pub Keeps : ℕ → Layout → World A → World A → Type 0
  Keeps q k w w' = Live w' q k × SameBytes q k w.mem w'.mem

  -- All live blocks are kept, but the one at `p`.
  abbrev pub KeepsOthers : ℕ → Layout → World A → World A → Type 0
  KeepsOthers p l w w' = (q : ℕ) (k : Layout) → Live w q k → Apart p l q k → Keeps q k w w'

  -- The call returns an aligned block that shares no byte with a live block, or 0.
  pub record IsAllocated (l : Layout) (w : World A) (p : ℕ) (w' : World A) : Type 0 where
    pub ready : Ready w'
    pub keeps : (q : ℕ) (k : Layout) → Live w q k → Keeps q k w w'
    pub block :
        (p ≡ 0)
        ⊎ (Live w' p l × (p % l.align ≡ 0) × ((q : ℕ) (k : Layout) → Live w q k → Apart p l q k))

  pub record IsGlobalAlloc (g : GlobalAlloc A) : Type 0 where
    pub held : (w : World A) (p : ℕ) (l : Layout) → Live w p l → IsHeld w p l
    pub writable :
        (w : World A) (p : ℕ) (l : Layout) (m : Memory)
        → Ready w
        → Live w p l
        → WritesIn p l w.mem m
        → Ready (record w { mem = m })
          × ((q : ℕ) (k : Layout) → Live w q k → Live (record w { mem = m }) q k)
    pub allocs :
        (w : World A) (l : Layout)
        → Ready w
        → IsLayout l
        → 0 < l.size
        → (p : ℕ) × (w' : World A) × (g.alloc l w ≡ done (p, w')) × IsAllocated l w p w'
    pub allocs_zeroed :
        (w : World A) (l : Layout)
        → Ready w
        → IsLayout l
        → 0 < l.size
        → (p : ℕ) × (w' : World A) × (g.alloc_zeroed l w ≡ done (p, w'))
          × IsAllocated l w p w'
          × Zeros p l w'.mem
    pub deallocs :
        (w : World A) (p : ℕ) (l : Layout)
        → Ready w
        → Live w p l
        → (w' : World A) × (g.dealloc p l w ≡ done (tt, w')) × Ready w' × KeepsOthers p l w w'

  -- `realloc` returns a live block that begins with the bytes of the old one; or 0, and then the old
  -- block too is kept. Every other live block is kept.
  abbrev pub Reallocates : ℕ → Layout → Layout → World A → Outcome (ℕ × World A) → Type 0
  Reallocates p l new w o =
      (r : ℕ) × (w' : World A) × (o ≡ done (r, w'))
      × Ready w'
      × KeepsOthers p l w w'
      × (((r ≡ 0) × Keeps p l w w')
          ⊎ (Live w' r new
              × (r % new.align ≡ 0)
              × ((i : ℕ) → i < l.size → i < new.size → w'.mem (r + i) ≡ w.mem (p + i))))
