-- ===== src/Traits/Moves.antt =====
-- What the provided `grow`, `grow_zeroed` and `shrink` do over any allocator that keeps its contract.
use secmem_alloc.Base.{
  ℕ, ◌+◌, ◌%◌, ◌≤◌, ◌<◌, ◌≡◌, ◌⊎◌, inl, inr, refl, ◌∙◌, ap, arith, Outcome, done, Result, ok, err,
  some,
}
use secmem_alloc.Memory.{World, copy, copy_nonoverlapping}
use secmem_alloc.Memory.Ranges.{copy-inside, copy-outside}
use secmem_alloc.Util.{Slice}
use secmem_alloc.Layout.{Layout, IsLayout, AllocError, alloc_error}
use secmem_alloc.Traits.{Allocator, SameBytes, WritesIn-copy, copy-done}
use secmem_alloc.Traits.Contract.{IsLent, Separate, IsNew, KeepsOthers, IsAllocator}
use secmem_alloc.Traits.Provided.{Resize, moves_to, IsProvided, IsProvidedGrowZeroed}

module _ {A G : Type 0} (Ready : G → World A → Type 0) (Live : G → ℕ → Layout → Type 0) where
  -- The block at `p` has become `s`, which is new and begins with its first `count` bytes. All other blocks are
  -- kept. The call ended with `deallocate` of the old block, which was live until then.
  pub record IsMoved (a : Allocator A) (count p : ℕ) (old new : Layout) (g : G) (w : World A)
      (s : Slice) (g' : G) (w' : World A) : Type 0 where
    pub ready : Ready g' w'
    pub live :
        (k : Layout)
        → IsLayout k
        → k.align ≡ new.align
        → new.size ≤ k.size
        → k.size ≤ s.len
        → Live g' s.addr k
    pub large : new.size ≤ s.len
    pub aligned : s.addr % new.align ≡ 0
    pub separate :
        (q : ℕ) (k : Layout)
        → Live g q k
        → Separate s.addr (record { size = s.len; align = new.align }) q k
    pub contents : (i : ℕ) → i < count → w'.mem (s.addr + i) ≡ w.mem (p + i)
    pub others : KeepsOthers Ready Live p old g w g' w'
    pub released :
        (h : G) × (v : World A) × Ready h v × Live h p old × (a.deallocate p old v ≡ done (tt, w'))

  -- The block is moved; or `allocate` returns an error, which the call returns, and then nothing
  -- changes for the owners of blocks.
  abbrev pub Resizes :
      Allocator A
      → ℕ
      → ℕ
      → Layout
      → Layout
      → G
      → World A
      → Outcome (Result Slice AllocError × World A)
      → Type 0
  Resizes a count p old new g w o =
      ((s : Slice) × (g' : G) × (w' : World A) × (o ≡ done (ok s, w'))
        × IsMoved a count p old new g w s g' w')
      ⊎ ((w' : World A) × (a.allocate new w ≡ done (err alloc_error, w'))
          × (o ≡ done (err alloc_error, w'))
          × Ready g w'
          × ((q : ℕ) (k : Layout) → Live g q k → SameBytes q k w.mem w'.mem))

  -- The same with `allocate_zeroed`; the rest of the block is zeroed.
  abbrev pub ResizesZeroed :
      Allocator A
      → ℕ
      → ℕ
      → Layout
      → Layout
      → G
      → World A
      → Outcome (Result Slice AllocError × World A)
      → Type 0
  ResizesZeroed a count p old new g w o =
      ((s : Slice) × (g' : G) × (w' : World A) × (o ≡ done (ok s, w'))
        × IsMoved a count p old new g w s g' w'
        × ((x : ℕ) → s.addr + count ≤ x → x < s.addr + new.size → w'.mem x ≡ some 0))
      ⊎ ((w' : World A) × (a.allocate_zeroed new w ≡ done (err alloc_error, w'))
          × (o ≡ done (err alloc_error, w'))
          × Ready g w'
          × ((q : ℕ) (k : Layout) → Live g q k → SameBytes q k w.mem w'.mem))

module _ {A G : Type 0} (Ready : G → World A → Type 0) (Live : G → ℕ → Layout → Type 0)
    (a : Allocator A) (laws : IsAllocator Ready Live a) (g : G) (w : World A) (p : ℕ)
    (old new : Layout) (live : Live g p old) (lay : IsLayout new) where
  -- A block was found at `s`, in the state `w1`.
  module _ (count : ℕ) (in_old : count ≤ old.size) (in_new : count ≤ new.size) (s : Slice) (g1 : G)
      (w1 : World A) (found : IsNew Ready Live new g w s g1 w1) where
    abbrev copied : World A
    copied = record w1 { mem = copy w1.mem p s.addr count }

    live_old : Live g1 p old
    live_old = (found.keeps p old live).0

    live_new : Live g1 s.addr new
    live_new = found.live new lay refl (omega arith) found.large

    old-IsLent : IsLent w1 p old
    old-IsLent = laws.lent g1 w1 p old found.ready live_old

    new-IsLent : IsLent w1 s.addr new
    new-IsLent = laws.lent g1 w1 s.addr new found.ready live_new

    copied_ready : Ready g1 copied
    copied_ready = laws.writable g1 w1 s.addr new copied.mem found.ready live_new (
        WritesIn-copy w1.mem p s.addr count new in_new
          (λ x h k. old-IsLent.mapped x h (omega arith)) new-IsLent.mapped)

    apart : (k : Layout) → k.size ≤ s.len → Separate p old s.addr k
    apart k le = omega (arith, found.separate p old live)

    -- The state `w'` has kept the copy.
    contents_kept :
        (w' : World A)
        → SameBytes s.addr new copied.mem w'.mem
        → (i : ℕ) → i < count
        → w'.mem (s.addr + i) ≡ w.mem (p + i)
    contents_kept w' same i h =
        same (s.addr + i) (omega arith) (omega arith)
        ∙ copy-inside w1.mem p s.addr count (s.addr + i) (omega arith) (omega arith)
        ∙ ap (λ (j : ℕ). w1.mem (p + j)) (omega arith)
        ∙ (found.keeps p old live).1 (p + i) (omega arith) (omega arith)

    others_kept :
        (g' : G) (w' : World A)
        → KeepsOthers Ready Live p old g1 copied g' w'
        → KeepsOthers Ready Live p old g w g' w'
    others_kept g' w' others q k h o =
        let (live_q, same) = found.keeps q k h in
        let (still, same') = others q k live_q o in
        (
          still,
          λ x y z.
              same' x y z
              ∙ copy-outside w1.mem p s.addr count x
                  (omega (arith, found.separate q k h, found.large))
              ∙ same x y z,
        )

    copied_lem : copy_nonoverlapping p s.addr count w1 ≡ done (tt, copied)
    copied_lem =
        copy-done p s.addr count w1 (λ x h k. old-IsLent.mapped x h (omega arith))
          (λ x h k. new-IsLent.mapped x h (omega arith)) (omega (arith, apart new found.large))

    IsMoved-moves_to :
        (w' : World A) × (moves_to a p old count s w1 ≡ done (ok s, w'))
        × ((g' : G) × IsMoved Ready Live a count p old new g w s g' w')
        × ((x : ℕ) → s.addr + count ≤ x → x < s.addr + new.size → w'.mem x ≡ w1.mem x)
    IsMoved-moves_to =
        let (g', w', ran, ready', others) = laws.deallocs g1 copied p old copied_ready live_old in
        let same = (others s.addr new live_new (apart new found.large)).1 in
        (
          w',
          rw (copied_lem, ran) refl,
          (
            g',
            record {
              ready = ready';
              live = λ k lay_k e le fits.
                  (others s.addr k (found.live k lay_k e le fits) (apart k fits)).0;
              large = found.large;
              aligned = found.aligned;
              separate = found.separate;
              contents = contents_kept w' same;
              others = others_kept g' w' others;
              released = (g1, copied, copied_ready, live_old, ran);
            },
          ),
          λ x h k.
              same x (omega arith) (omega arith)
              ∙ copy-outside w1.mem p s.addr count x (omega arith),
        )

  module _ (resize : Resize A) (ready : Ready g w) where
    -- A `resize` that is provided, for what it copies.
    pub provided-Resizes :
        (count : Layout → Layout → ℕ)
        → IsProvided (λ self. self.allocate) count resize
        → count old new ≤ old.size
        → count old new ≤ new.size
        → Resizes Ready Live a (count old new) p old new g w (resize a p old new w)
    provided-Resizes count provided in_old in_new = elim (laws.allocs g w new ready lay) [
      | inl (s, g1, w1, ran, found) ↦
          let (w', moved, (g', m), zeros) =
            IsMoved-moves_to (count old new) in_old in_new s g1 w1 found in
          inl (s, g', w', provided.moved a p old new s w w1 ran ∙ moved, m)
      | inr (w1, ran, ready1, same) ↦
          inr (w1, ran, provided.refused a p old new alloc_error w w1 ran, ready1, same)
    ]

    -- The provided `grow_zeroed`.
    pub provided-ResizesZeroed :
        IsProvidedGrowZeroed resize
        → old.size ≤ new.size
        → ResizesZeroed Ready Live a old.size p old new g w (resize a p old new w)
    provided-ResizesZeroed provided le = elim (laws.allocs_zeroed g w new ready lay) [
      | inl (s, g1, w1, ran, found, zeros) ↦
          let (w', moved, (g', m), same) =
            IsMoved-moves_to old.size (omega arith) le s g1 w1 found in
          inl (
            s,
            g',
            w',
            provided.moved a p old new s w w1 ran ∙ moved,
            m,
            λ x i j. same x i j ∙ zeros x (omega arith) (omega (arith, found.large)),
          )
      | inr (w1, ran, ready1, same) ↦
          inr (w1, ran, provided.refused a p old new alloc_error w w1 ran, ready1, same)
    ]
