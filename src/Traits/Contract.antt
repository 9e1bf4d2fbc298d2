-- ===== src/Traits/Contract.antt =====
-- The contract of `Allocator`, as far as it does not speak of the methods with a default.
use secmem_alloc.Base.{
  ℕ, ◌+◌, ◌%◌, ◌≤◌, ◌<◌, ◌≡◌, ◌⊎◌, true, some, Outcome, done, Result, ok, err, usize_mod,
}
use secmem_alloc.Memory.{Memory, World, is_mapped}
use secmem_alloc.Util.{Slice}
use secmem_alloc.Layout.{Layout, IsLayout, AllocError, alloc_error}
use secmem_alloc.Traits.{Allocator, Apart, SameBytes, WritesIn}

-- What a block is to its owner, for a layout that fits it. It may be empty.
pub record IsLent {A : Type 0} (w : World A) (p : ℕ) (l : Layout) : Type 0 where
  pub layout : IsLayout l
  pub nonnull : 0 < p
  pub small : 0 < l.size → p + l.size < usize_mod
  pub mapped : (a : ℕ) → p ≤ a → a < p + l.size → is_mapped (w.mem a) ≡ true

-- Two blocks that share no byte, or of which one is empty.
abbrev pub Separate : ℕ → Layout → ℕ → Layout → Type 0
Separate p l q k = (l.size ≡ 0) ⊎ ((k.size ≡ 0) ⊎ Apart p l q k)

-- An allocator has an invariant `Ready` between its state and what is allocated, `G`; and `Live g p l`
-- says that a block at `p` is allocated that `l` fits.
module _ {A G : Type 0} (Ready : G → World A → Type 0) (Live : G → ℕ → Layout → Type 0) where
  -- A block that is allocated stays so, and its bytes are the same.
  abbrev pub Keeps : ℕ → Layout → World A → G → World A → Type 0
  Keeps q k w g' w' = Live g' q k × SameBytes q k w.mem w'.mem

  -- `s` is a new block for `l`.
  pub record IsNew (l : Layout) (g : G) (w : World A) (s : Slice) (g' : G) (w' : World A)
      : Type 0 where
    pub ready : Ready g' w'
    pub large : l.size ≤ s.len
    pub aligned : s.addr % l.align ≡ 0
    pub live :
        (k : Layout)
        → IsLayout k
        → k.align ≡ l.align
        → l.size ≤ k.size
        → k.size ≤ s.len
        → Live g' s.addr k
    pub keeps : (q : ℕ) (k : Layout) → Live g q k → Keeps q k w g' w'
    pub separate :
        (q : ℕ) (k : Layout)
        → Live g q k
        → Separate s.addr (record { size = s.len; align = l.align }) q k

  -- The call returns a new block, or an error, and then nothing changes for the owners of blocks.
  abbrev pub Allocates : Layout → G → World A → Outcome (Result Slice AllocError × World A) → Type 0
  Allocates l g w o =
      ((s : Slice) × (g' : G) × (w' : World A) × (o ≡ done (ok s, w')) × IsNew l g w s g' w')
      ⊎ ((w' : World A) × (o ≡ done (err alloc_error, w'))
          × Ready g w'
          × ((q : ℕ) (k : Layout) → Live g q k → SameBytes q k w.mem w'.mem))

  -- The same, and the block is zeroed.
  abbrev pub AllocatesZeroed :
      Layout → G → World A → Outcome (Result Slice AllocError × World A) → Type 0
  AllocatesZeroed l g w o =
      ((s : Slice) × (g' : G) × (w' : World A) × (o ≡ done (ok s, w'))
        × IsNew l g w s g' w'
        × ((a : ℕ) → s.addr ≤ a → a < s.addr + s.len → w'.mem a ≡ some 0))
      ⊎ ((w' : World A) × (o ≡ done (err alloc_error, w'))
          × Ready g w'
          × ((q : ℕ) (k : Layout) → Live g q k → SameBytes q k w.mem w'.mem))

  -- All blocks are kept, but the one at `p`.
  abbrev pub KeepsOthers : ℕ → Layout → G → World A → G → World A → Type 0
  KeepsOthers p l g w g' w' =
      (q : ℕ) (k : Layout) → Live g q k → Separate p l q k → Keeps q k w g' w'

  pub record IsAllocator (a : Allocator A) : Type 0 where
    pub lent : (g : G) (w : World A) (p : ℕ) (l : Layout) → Ready g w → Live g p l → IsLent w p l
    pub writable :
        (g : G) (w : World A) (p : ℕ) (l : Layout) (m : Memory)
        → Ready g w
        → Live g p l
        → WritesIn p l w.mem m
        → Ready g (record w { mem = m })
    pub allocs :
        (g : G) (w : World A) (l : Layout)
        → Ready g w
        → IsLayout l
        → Allocates l g w (a.allocate l w)
    pub allocs_zeroed :
        (g : G) (w : World A) (l : Layout)
        → Ready g w
        → IsLayout l
        → AllocatesZeroed l g w (a.allocate_zeroed l w)
    pub deallocs :
        (g : G) (w : World A) (p : ℕ) (l : Layout)
        → Ready g w
        → Live g p l
        → (g' : G) × (w' : World A) × (a.deallocate p l w ≡ done (tt, w'))
          × Ready g' w'
          × KeepsOthers p l g w g' w'
