-- ===== src/Traits/Discreet.antt =====
-- Allocators that let nothing out of what is in the blocks: two runs that differ there only cannot be
-- told apart.
use secmem_alloc.Base.{ℕ, ◌+◌, ◌≤◌, ◌<◌, ◌≡◌, ◌⊎◌, Outcome, done}
use secmem_alloc.Memory.{Memory, World}
use secmem_alloc.Layout.{Layout, IsLayout}
use secmem_alloc.Traits.{Allocator}
use secmem_alloc.Traits.Contract.{Separate}

-- An address is not in a block.
abbrev pub Beyond : ℕ → Layout → ℕ → Type 0
Beyond p l a = (a < p) ⊎ (p + l.size ≤ a)

abbrev pub Anywhere : ℕ → Layout → ℕ → Type 0
Anywhere p l a = Unit {0}

-- Two memories that differ in this set of addresses only.
abbrev pub SameBut : (ℕ → Type 0) → Memory → Memory → Type 0
SameBut D m m' = (x : ℕ) → ¬ D x → m x ≡ m' x

-- Two calls return the same, and leave the same state of the allocator and such memories.
abbrev pub SameOutcome :
    {A B : Type 0} → (ℕ → Type 0) → Outcome (B × World A) → Outcome (B × World A) → Type 0
SameOutcome {A} {B} D o o' =
    (r : B) × (w : World A) × (w' : World A) × (o ≡ done (r, w))
    × (o' ≡ done (r, w'))
    × (w.alloc ≡ w'.alloc)
    × SameBut D w.mem w'.mem

module _ {A G : Type 0} (Ready : G → World A → Type 0) (Live : G → ℕ → Layout → Type 0) where
  -- An address is in no block.
  abbrev pub Free : G → ℕ → Type 0
  Free g a = (p : ℕ) (l : Layout) → Live g p l → Beyond p l a

  -- An address is in no block, but perhaps in the one at `p`.
  abbrev pub Rest : G → ℕ → Layout → ℕ → Type 0
  Rest g p l a = (q : ℕ) (k : Layout) → Live g q k → Separate p l q k → Beyond q k a

  -- No call tells two states apart that differ in some bytes of live blocks only, and none spreads the
  -- difference. When a block is given back, the bytes that the allocator may look at, besides those
  -- that are the same, are those that `Seen` says.
  pub record IsDiscreet (Seen : ℕ → Layout → ℕ → Type 0) (a : Allocator A) : Type 1 where
    pub allocates :
        (D : ℕ → Type 0) (g g' : G) (w w' : World A) (l : Layout)
        → Ready g w
        → Ready g' w'
        → ((x : ℕ) → Free g x → ¬ D x)
        → ((x : ℕ) → Free g' x → ¬ D x)
        → w.alloc ≡ w'.alloc
        → SameBut D w.mem w'.mem
        → IsLayout l
        → SameOutcome D (a.allocate l w) (a.allocate l w')
    pub allocates_zeroed :
        (D : ℕ → Type 0) (g g' : G) (w w' : World A) (l : Layout)
        → Ready g w
        → Ready g' w'
        → ((x : ℕ) → Free g x → ¬ D x)
        → ((x : ℕ) → Free g' x → ¬ D x)
        → w.alloc ≡ w'.alloc
        → SameBut D w.mem w'.mem
        → IsLayout l
        → SameOutcome D (a.allocate_zeroed l w) (a.allocate_zeroed l w')
    pub deallocates :
        (D : ℕ → Type 0) (g g' : G) (w w' : World A) (p : ℕ) (l : Layout)
        → Ready g w
        → Ready g' w'
        → Live g p l
        → Live g' p l
        → ((x : ℕ) → Rest g p l x → ¬ D x)
        → ((x : ℕ) → Rest g' p l x → ¬ D x)
        → w.alloc ≡ w'.alloc
        → ((x : ℕ) → ¬ D x → Seen p l x → w.mem x ≡ w'.mem x)
        → SameOutcome D (a.deallocate p l w) (a.deallocate p l w')

  -- An allocator that looks at less looks at no more than one that looks at more.
  pub IsDiscreet-less :
      (Seen Seen' : ℕ → Layout → ℕ → Type 0) (a : Allocator A)
      → ((p : ℕ) (l : Layout) (x : ℕ) → Seen p l x → Seen' p l x)
      → IsDiscreet Seen a
      → IsDiscreet Seen' a
  IsDiscreet-less Seen Seen' a less d = record {
    allocates = d.allocates;
    allocates_zeroed = d.allocates_zeroed;
    deallocates = λ D g g' w w' p l ready ready' live live' rest rest' state same.
        d.deallocates D g g' w w' p l ready ready' live live' rest rest' state
          (λ x out seen. same x out (less p l x seen));
  }
