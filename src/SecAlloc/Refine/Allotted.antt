-- ===== src/SecAlloc/Refine/Allotted.antt =====
-- What is allocated, by the list of live blocks of src/sec_alloc.rs.
use mathlib.Core.Path.{subst}
use secmem_alloc.Base.{ℕ, ◌+◌, ◌-◌, ◌≤◌, ◌<◌, ◌≡◌, ◌⊎◌, inl, inr, arith}
use secmem_alloc.Memory.{Memory}
use secmem_alloc.Layout.{Layout, IsLayout}
use secmem_alloc.Traits.{WritesIn}
use secmem_alloc.Traits.Contract.{IsLent}
use secmem_alloc.SecAlloc.{Sec}
use secmem_alloc.SecAlloc.Blocks.{Block, Blocks, Inside, Outside}
use secmem_alloc.SecAlloc.Members.{IsIn, IsIn-split, Outside-IsIn}
use secmem_alloc.SecAlloc.Invariant.{Inv, Inv-mem, InPage}
use secmem_alloc.SecAlloc.Deallocate.{Fits, IsBlock-bounds}

-- An empty layout fits any pointer; another one the live block that starts there, if it has its size.
abbrev pub IsAt : Blocks → ℕ → Layout → Type 0
IsAt bs p l = ((l.size ≡ 0) × (0 < p)) ⊎ ((b : Block) × IsIn b bs × (b.addr ≡ p) × Fits l b)

abbrev pub Live : Blocks → ℕ → Layout → Type 0
Live bs p l = IsLayout l × IsAt bs p l

-- A member of the list, as the lemmas on the operations take it.
module _ (b : Block) (bs : Blocks) {w : Sec} (inv : Inv bs w) (i : IsIn b bs) where
  pub member-InPage : (a : ℕ) → Inside a b → InPage w a
  member-InPage a h =
      let (xs, ys, e) = IsIn-split b bs i in
      let inv' = subst (λ l. Inv l w) e inv in
      omega (arith, IsBlock-bounds xs ys b inv', inv.offset_in_page)

pub lent : (bs : Blocks) (w : Sec) (p : ℕ) (l : Layout) → Inv bs w → Live bs p l → IsLent w p l
lent bs w p l inv (lay, inl (e, pos)) = record {
  layout = lay;
  nonnull = pos;
  small = λ h. absurd (omega arith);
  mapped = λ a x y. absurd (omega arith);
}
lent bs w p l inv (lay, inr (b, i, e, fits)) = record {
  layout = lay;
  nonnull = omega (arith, inv.page, member-InPage b bs inv i p (omega arith));
  small = λ h. omega (arith, inv.page, member-InPage b bs inv i (p + (l.size - 1)) (omega arith));
  mapped = λ a x y. inv.mapped a (member-InPage b bs inv i a (omega arith));
}

pub writable :
    (bs : Blocks) (w : Sec) (p : ℕ) (l : Layout) (m : Memory)
    → Inv bs w
    → Live bs p l
    → WritesIn p l w.mem m
    → Inv bs (record w { mem = m })
writable bs w p l m inv (lay, at) wr =
    Inv-mem inv m (λ a h. ground (arith, wr.elsewhere a, wr.still_mapped a, inv.mapped a))
      (λ a h o. wr.elsewhere a (off a o at))
  where
    off : (a : ℕ) → Outside a bs → IsAt bs p l → (a < p) ⊎ (p + l.size ≤ a)
    off a o (inl (e, pos)) = ground arith
    off a o (inr (b, i, e, fits)) = ground (arith, Outside-IsIn a b bs o i)
