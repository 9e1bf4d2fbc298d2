-- ===== src/ZeroizingAlloc/Realloc.antt =====
-- `realloc` of `GlobalAlloc`, which `core` provides and src/zeroizing_alloc.rs leaves as it is.
use secmem_alloc.Base.{
  M, ◌⊎◌, ℕ, ◌+◌, ◌%◌, ◌<◌, ◌≡◌, inl, inr, refl, ◌∙◌, ap, arith, Outcome, done, leb, if◌then◌else◌,
}
use secmem_alloc.Memory.{World, copy, copy_nonoverlapping}
use secmem_alloc.Memory.Ranges.{copy-inside, copy-outside}
use secmem_alloc.Traits.{Apart, GlobalAlloc, SameBytes, WritesIn-copy, copy-done}
use secmem_alloc.Layout.{Layout, IsLayout}
use secmem_alloc.Traits.Provided.{IsProvidedRealloc}
use secmem_alloc.ZeroizingAlloc.Contract.{
  KeepsOthers, IsAllocated, IsGlobalAlloc, Reallocates, IsHeld,
}

-- The call returns 0, or it ends with `dealloc` of the block at `p`, which is live until then.
abbrev pub Releases :
    {A : Type 0}
    → (World A → Type 0)
    → (World A → ℕ → Layout → Type 0)
    → GlobalAlloc A
    → ℕ
    → Layout
    → Outcome (ℕ × World A)
    → Type 0
Releases {A} Ready Live g p l o =
    (r : ℕ) × (w' : World A) × (o ≡ done (r, w'))
    × ((r ≡ 0) ⊎ ((v : World A) × Live v p l × (g.dealloc p l v ≡ done (tt, w'))))

module _ {A : Type 0} (Ready : World A → Type 0) (Live : World A → ℕ → Layout → Type 0)
    (g : GlobalAlloc A) (laws : IsGlobalAlloc Ready Live g)
    (realloc : GlobalAlloc A → ℕ → Layout → ℕ → M (World A) ℕ)
    (provided : IsProvidedRealloc realloc) (w : World A) (p : ℕ) (l : Layout) (new_size : ℕ)
    (ready : Ready w) (live : Live w p l) where
  abbrev new : Layout
  new = record { size = new_size; align = l.align }

  abbrev count : ℕ
  count = if leb l.size new_size then l.size else new_size

  -- A block was found at `r`, in the state `w1`.
  module _ (r : ℕ) (w1 : World A) (found : IsAllocated Ready Live new w r w1)
      (live1 : Live w1 r new) (apart : (q : ℕ) (k : Layout) → Live w q k → Apart r new q k) where
    abbrev copied : World A
    copied = record w1 { mem = copy w1.mem p r count }

    old : IsHeld w1 p l
    old = laws.held w1 p l (found.keeps p l live).0

    fresh : IsHeld w1 r new
    fresh = laws.held w1 r new live1

    copied_lem : Ready copied × ((q : ℕ) (k : Layout) → Live w1 q k → Live copied q k)
    copied_lem = laws.writable w1 r new copied.mem found.ready live1 (
        WritesIn-copy w1.mem p r count new (ground arith) (λ a h k. old.mapped a h (ground arith))
          fresh.mapped)

    copied-done : copy_nonoverlapping p r count w1 ≡ done (tt, copied)
    copied-done =
        copy-done p r count w1 (λ a h k. old.mapped a h (ground arith))
          (λ a h k. fresh.mapped a h (ground arith)) (ground (arith, apart p l live))

    apart_old : Apart p l r new
    apart_old = omega (arith, apart p l live)

    others_kept :
        (w' : World A) → KeepsOthers Ready Live p l copied w' → KeepsOthers Ready Live p l w w'
    others_kept w' others q k h o =
        let (live_q, same1) = found.keeps q k h in
        let (still, same2) = others q k (copied_lem.1 q k live_q) o in
        (
          still,
          λ a x y.
              same2 a x y
              ∙ copy-outside w1.mem p r count a (ground (arith, apart q k h))
              ∙ same1 a x y,
        )

    contents_kept :
        (w' : World A)
        → SameBytes r new copied.mem w'.mem
        → (i : ℕ) → i < l.size
        → i < new_size
        → w'.mem (r + i) ≡ w.mem (p + i)
    contents_kept w' same i h k =
        same (r + i) (omega arith) (omega arith)
        ∙ copy-inside w1.mem p r count (r + i) (omega arith) (ground arith)
        ∙ ap (λ (j : ℕ). w1.mem (p + j)) (omega arith)
        ∙ (found.keeps p l live).1 (p + i) (omega arith) (omega arith)

    -- The old block is given back after the copy, and the new one keeps what was copied.
    released :
        g.alloc new w ≡ done (r, w1)
        → r % new.align ≡ 0
        → Reallocates Ready Live p l new w (realloc g p l new_size w)
    released ran_alloc aligned =
        let (w', ran, ready', others) =
          laws.deallocs copied p l copied_lem.0 (copied_lem.1 p l (found.keeps p l live).0) in
        let (live', same) = others r new (copied_lem.1 r new live1) apart_old in
        (
          r,
          w',
          provided.moved g p l new_size r w w1 fresh.nonnull ran_alloc ∙ rw (copied-done, ran) refl,
          ready',
          others_kept w' others,
          inr (live', aligned, contents_kept w' same),
        )

    -- The last call that is made is `dealloc` of the old block.
    releases : g.alloc new w ≡ done (r, w1) → Releases Ready Live g p l (realloc g p l new_size w)
    releases ran_alloc =
        let live_copied = copied_lem.1 p l (found.keeps p l live).0 in
        let (w', ran, ready', others) = laws.deallocs copied p l copied_lem.0 live_copied in
        (
          r,
          w',
          provided.moved g p l new_size r w w1 fresh.nonnull ran_alloc ∙ rw (copied-done, ran) refl,
          inr (copied, live_copied, ran),
        )

  -- Over an allocator that keeps the contract, and for a new size that is not 0, `realloc` of a
  -- live block returns a live and aligned block that begins with the bytes of the old one, as
  -- many as both have; or 0, and then the old block is kept too. No other live block changes.
  pub realloc-Reallocates :
      IsLayout (record { size = new_size; align = l.align })
      → 0 < new_size
      → Reallocates Ready Live p l
          (record { size = new_size; align = l.align })
          w
          (realloc g p l new_size w)
  realloc-Reallocates lay pos =
      let (r, w1, ran, found) = laws.allocs w new ready lay pos in
      elim found.block [
        | inl none ↦ (
          r,
          w1,
          provided.refused g p l new_size w w1 (ran ∙ rw none refl) ∙ rw none refl,
          found.ready,
          λ q k h o. found.keeps q k h,
          inl (none, found.keeps p l live),
        )
        | inr (live1, aligned, apart) ↦ released r w1 found live1 apart ran aligned
      ]

  -- If `realloc` finds a new block, it gives the old one back while that is still live.
  pub realloc-Releases :
      IsLayout (record { size = new_size; align = l.align })
      → 0 < new_size
      → Releases Ready Live g p l (realloc g p l new_size w)
  realloc-Releases lay pos =
      let (r, w1, ran, found) = laws.allocs w new ready lay pos in
      elim found.block [
        | inl none ↦ (
          r,
          w1,
          provided.refused g p l new_size w w1 (ran ∙ rw none refl) ∙ rw none refl,
          inl none,
        )
        | inr (live1, aligned, apart) ↦ releases r w1 found live1 apart ran
      ]
