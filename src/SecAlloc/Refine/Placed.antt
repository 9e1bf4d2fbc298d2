-- ===== src/SecAlloc/Refine/Placed.antt =====
-- A block that `grow` or `shrink` of src/sec_alloc.rs has placed, in terms of what is allocated.
use native.Mathlib.Decide.{dec_le}
use secmem_alloc.Base.{ℕ, ◌+◌, ◌≤◌, ◌<◌, ◌≡◌, ◌⊎◌, inl, inr, refl, ap, arith, ◌∷◌, ◌++◌}
use secmem_alloc.Util.{Slice}
use secmem_alloc.Layout.{Layout, IsLayout}
use secmem_alloc.Traits.Contract.{Separate, KeepsOthers}
use secmem_alloc.Traits.Resizer.{IsResizedTo}
use secmem_alloc.SecAlloc.{Sec}
use secmem_alloc.SecAlloc.Blocks.{Block, Blocks, Inside}
use secmem_alloc.SecAlloc.Members.{IsIn, IsIn-remove, IsIn-middle, IsIn-insert}
use secmem_alloc.SecAlloc.Invariant.{Inv}
use secmem_alloc.SecAlloc.Deallocate.{Fits}
use secmem_alloc.SecAlloc.Fresh.{block}
use secmem_alloc.SecAlloc.Resized.{IsResized}
use secmem_alloc.SecAlloc.Refine.{off_block}
use secmem_alloc.SecAlloc.Refine.Allotted.{Live}

-- Blocks without a common byte, neither of them empty, lie one below the other.
apart_blocks :
    (b c : Block)
    → 0 < b.size
    → 0 < c.size
    → ((a : ℕ) → Inside a c → ¬ Inside a b)
    → (b.addr + b.size ≤ c.addr) ⊎ (c.addr + c.size ≤ b.addr)
apart_blocks b c pos pos' off = elim (dec_le (b.addr + b.size) c.addr) [
  | yes below ↦ inl below
  | no over ↦ elim (dec_le (c.addr + c.size) b.addr) [
    | yes above ↦ inr above
    | no both ↦ elim (dec_le b.addr c.addr) [
      | yes first ↦ absurd (off c.addr (omega arith, omega arith) (first, omega arith))
      | no later ↦ absurd (off b.addr (omega arith, omega arith) (omega arith, omega arith))
    ]
  ]
]

-- `b` is live, with `xs` above it and `ys` below.
module _ (xs ys : Blocks) (b : Block) {w : Sec} (inv : Inv (xs ++ b ∷ ys) w) (old new : Layout)
    (fits : Fits old b) (lay : IsLayout new) where
  -- What the owner of another block holds.
  other :
      (q : ℕ) (k : Layout) (c : Block)
      → IsIn c (xs ++ b ∷ ys)
      → c.addr ≡ q
      → Fits k c
      → Separate b.addr old q k
      → IsIn c (xs ++ ys)
  other q k c i at fits_c apart = elim (IsIn-remove c b xs ys i) [
    | inl same ↦ absurd (omega (arith, ap (λ (x : Block). x.addr) same, apart))
    | inr j ↦ j
  ]

  -- The block has become `s`, with `above` over it now.
  pub placed-IsResizedTo :
      (count : ℕ) (w' : Sec) (s : Slice) (above below : Blocks)
      → 0 < new.size
      → ((c : Block) → IsIn c (xs ++ ys) → IsIn c (above ++ below))
      → Inv (above ++ block s ∷ below) w'
      → IsResized xs ys b new count w s w'
      → IsResizedTo Inv Live count b.addr old new (xs ++ b ∷ ys) w s (above ++ block s ∷ below) w'
  placed-IsResizedTo count w' s above below pos still inv' r = record {
    ready = inv';
    live = λ k lay_k same from to. (
      lay_k,
      inr (
        block s,
        IsIn-middle (block s) above below,
        refl,
        (omega arith, omega (arith, r.rounded)),
      ),
    );
    large = r.large;
    aligned = r.aligned;
    contents = r.contents;
    others = kept;
    separate = apart;
  }
    where
      kept : KeepsOthers Inv Live b.addr old (xs ++ b ∷ ys) w (above ++ block s ∷ below) w'
      kept q k (lay_k, inl empty) sep = ((lay_k, inl empty), λ a x y. absurd (omega arith))
      kept q k (lay_k, inr (c, i, at, fits_c)) sep =
          let j = other q k c i at fits_c sep in
          (
            (lay_k, inr (c, IsIn-insert c (block s) above below (still c j), at, fits_c)),
            λ a x y.
                let inside : Inside a c = (omega arith, omega arith) in
                r.others a (off_block xs ys b inv c j a inside)
                  (off_block above below (block s) inv' c (still c j) a inside),
          )

      apart :
          (q : ℕ) (k : Layout)
          → Live (xs ++ b ∷ ys) q k
          → Separate b.addr old q k
          → Separate s.addr (record { size = s.len; align = new.align }) q k
      apart q k (lay_k, inl empty) sep = inr (inl empty.0)
      apart q k (lay_k, inr (c, i, at, fits_c)) sep =
          let j = other q k c i at fits_c sep in
          omega (
            arith,
            apart_blocks (block s) c (omega (arith, r.large)) (omega arith)
                (off_block above below (block s) inv' c (still c j)),
          )
