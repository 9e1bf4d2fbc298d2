-- ===== src/SecAlloc/Move.antt =====
-- The reallocations of src/sec_alloc.rs: a new block, a copy, and the old block given back.
use secmem_alloc.Base.{
  ℕ, ◌+◌, ◌-◌, ◌≤◌, ◌<◌, ◌≡◌, ◌⊎◌, inl, inr, ◌∙◌, ap, Outcome, ◌>>=◌, true, ◌∷◌, ◌++◌, arith, done,
  ok, err, le→leb,
}
use secmem_alloc.Memory.{Memory, is_mapped, copy}
use secmem_alloc.Memory.Ranges.{
  all_mapped-true, copy-inside, copy-outside, copy_nonoverlapping-done, fill-inside, fill-outside,
}
use secmem_alloc.Util.{Slice, nonnull_as_mut_ptr}
use secmem_alloc.Layout.{Layout, IsLayout, alloc_error}
use secmem_alloc.SecAlloc.{Sec, SliceResult, allocate}
use secmem_alloc.SecAlloc.Resize.{move, realloc_shrink, realloc_grow}
use secmem_alloc.SecAlloc.Blocks.{Block, Blocks, not-Inside, Stacked-middle}
use secmem_alloc.SecAlloc.Invariant.{Inv, Inv-mem, page_end}
use secmem_alloc.SecAlloc.Deallocate.{Fits, rewound_bounds, freed, deallocate-eq, freed-Inv}
use secmem_alloc.SecAlloc.Fresh.{block, IsFresh, NoRoom, allocate-IsFresh}
use secmem_alloc.SecAlloc.Resized.{IsResized}

-- The state after the copy.
abbrev pub copied : Sec → ℕ → ℕ → ℕ → Sec
copied w src dst count = record w { mem = copy w.mem src dst count }

-- `s` is fresh in the state `w1`, reached from `w`, in which `b` is alive.
module _ (xs ys : Blocks) (b : Block) {w w1 : Sec} {s : Slice} (old new : Layout) (count : ℕ)
    (fresh : IsFresh (xs ++ b ∷ ys) new w s w1) (in_old : count ≤ b.size)
    (in_new : count ≤ s.len) where
  abbrev w2 : Sec
  w2 = copied w1 b.addr s.addr count

  -- The new block lies above the old one, and both lie in the page.
  apart :
      (w1.alloc.page.page_ptr ≤ b.addr)
      × (b.addr + b.size ≤ s.addr)
      × (s.addr + s.len ≤ page_end w1)
  apart =
      let below = Stacked-middle w1.alloc.page.page_ptr b ys s.addr xs fresh.inv.stacked.2 in
      (below.0, below.1, omega (arith, fresh.inv.stacked.0, fresh.inv.offset_in_page))

  mapped_in : (a : ℕ) → b.addr ≤ a → a < s.addr + s.len → is_mapped (w1.mem a) ≡ true
  mapped_in a p q = fresh.inv.mapped a (omega (arith, apart))

  copied-Inv : Inv (block s ∷ (xs ++ b ∷ ys)) w2
  copied-Inv =
      Inv-mem fresh.inv w2.mem
        (λ a h. ground (
          arith,
          copy-inside w1.mem b.addr s.addr count a,
          copy-outside w1.mem b.addr s.addr count a,
          fresh.inv.mapped a,
          mapped_in (b.addr + (a - s.addr)),
          apart,
        ))
        (λ a h o. copy-outside w1.mem b.addr s.addr count a (omega (arith, o.0)))

  -- Neither the copy nor the release of the old block can fail.
  pub move-eq : Fits old b → move b.addr old count (ok s) w1 ≡ done (ok s, freed w2 b)
  unfolding move nonnull_as_mut_ptr
  move-eq fits = rw (
    copy_nonoverlapping-done b.addr s.addr count w1
        (all_mapped-true w1.mem b.addr count (λ a p q. mapped_in a p (omega (arith, apart))))
        (all_mapped-true w1.mem s.addr count
          (λ a p q. mapped_in a (omega (arith, apart)) (omega arith)))
        (inl (omega (arith, apart))),
    deallocate-eq (block s ∷ xs) ys b copied-Inv old fits,
  )

  pub move-IsResized : IsResized xs ys b new count w s (freed w2 b)
  move-IsResized = record {
    placed = inr (fresh.separate, freed-Inv (block s ∷ xs) ys b copied-Inv);
    large = fresh.large;
    rounded = fresh.rounded;
    aligned = fresh.aligned;
    contents = λ i h.
        above (s.addr + i) (inr (omega (arith, apart)))
        ∙ copy-inside w1.mem b.addr s.addr count (s.addr + i) (omega arith) (omega arith)
        ∙ ap (λ (k : ℕ). w1.mem (b.addr + k)) (omega arith)
        ∙ ap (λ (m : Memory). m (b.addr + i)) fresh.same_memory;
    grown_zero = λ i h k.
        above (s.addr + i) (inr (omega (arith, apart)))
        ∙ copy-outside w1.mem b.addr s.addr count (s.addr + i) (inr (omega arith))
        ∙ fresh.zero_bytes (s.addr + i) (omega arith);
    wiped = λ a i o. fill-inside w2.mem b.addr 0 b.size a i.0 i.1;
    others = λ a o p.
        above a (not-Inside a b o)
        ∙ copy-outside w1.mem b.addr s.addr count a (omega (arith, not-Inside a (block s) p))
        ∙ ap (λ (m : Memory). m a) fresh.same_memory;
    same_page = fresh.same_page;
    offset = omega (arith, rewound_bounds (block s ∷ xs) ys b copied-Inv, fresh.offset);
  }
    where
      above : (a : ℕ) → (a < b.addr) ⊎ (b.addr + b.size ≤ a) → (freed w2 b).mem a ≡ w2.mem a
      above a o = fill-outside w2.mem b.addr 0 b.size a o

-- A reallocation moves the block, or fails and changes nothing if a new block does not fit.
abbrev pub Moves : Blocks → Blocks → Block → Layout → ℕ → Sec → Outcome (SliceResult × Sec) → Type 0
Moves xs ys b new kept w r =
    ((s : Slice) × (w' : Sec) × (r ≡ done (ok s, w')) × IsResized xs ys b new kept w s w')
    ⊎ ((r ≡ done (err alloc_error, w)) × NoRoom new w)

module _ (xs ys : Blocks) (b : Block) {w : Sec} (inv : Inv (xs ++ b ∷ ys) w) (old new : Layout)
    (fits : Fits old b) (lay : IsLayout new) (pos : 0 < new.size) where
  allocate_and_move :
      (count : ℕ)
      → count ≤ b.size
      → count ≤ new.size
      → Moves xs ys b new count w ((allocate new >>= move b.addr old count) w)
  allocate_and_move count in_old in_new = elim (allocate-IsFresh new inv lay pos) [
    | inl (s, w1, e, fresh) ↦ inl (
      s,
      freed (copied w1 b.addr s.addr count) b,
      rw e (move-eq xs ys b {w = w} old new count fresh in_old (omega (arith, fresh.large)) fits),
      move-IsResized xs ys b old new count fresh in_old (omega (arith, fresh.large)),
    )
    | inr (e, full) ↦ inr ((unfold move in rw e), full)
  ]

  -- `realloc_shrink` on a live block.
  pub realloc_shrink_lem :
      new.size ≤ old.size → Moves xs ys b new new.size w (realloc_shrink b.addr old new w)
  unfolding realloc_shrink
  realloc_shrink_lem le =
      rw (le→leb new.size old.size le) (allocate_and_move new.size (omega arith) (omega arith))

  -- `realloc_grow` on a live block.
  pub realloc_grow_lem :
      old.size ≤ new.size → Moves xs ys b new old.size w (realloc_grow b.addr old new w)
  unfolding realloc_grow
  realloc_grow_lem le =
      rw (le→leb old.size new.size le) (allocate_and_move old.size (omega arith) (omega arith))
