-- ===== src/SecAlloc/Resized.antt =====
-- What `shrink` and `grow` of src/sec_alloc.rs promise.
use secmem_alloc.Base.{ℕ, ◌+◌, ◌%◌, ◌≤◌, ◌<◌, ◌≡◌, ◌⊎◌, some, ◌∷◌, ◌++◌}
use secmem_alloc.Util.{Slice}
use secmem_alloc.Util.Align.{round8}
use secmem_alloc.Layout.{Layout}
use secmem_alloc.SecAlloc.{Sec}
use secmem_alloc.SecAlloc.Blocks.{Block, Blocks, Inside, Outside}
use secmem_alloc.SecAlloc.Invariant.{Inv}
use secmem_alloc.SecAlloc.Fresh.{block}

-- The slice `s` takes the place of the live block `b`, of which `kept` bytes matter: either in
-- place, or as a new block over all others. The first `kept` bytes have moved along, what lies past
-- the end of the old block is 0, and so is all of the old block that is not in the new one. No
-- other byte has changed. No more room is used up than a new block would take.
pub record IsResized (xs ys : Blocks) (b : Block) (l : Layout) (kept : ℕ) (w : Sec) (s : Slice)
    (w' : Sec) : Type 0 where
  pub placed :
      ((s.addr ≡ b.addr) × Inv (xs ++ block s ∷ ys) w')
      ⊎ (((a : ℕ) → Inside a (block s) → Outside a (xs ++ b ∷ ys)) × Inv (block s ∷ (xs ++ ys)) w')
  pub large : l.size ≤ s.len
  pub rounded : s.len ≡ round8 l.size
  pub aligned : s.addr % l.align ≡ 0
  pub contents : (i : ℕ) → i < kept → w'.mem (s.addr + i) ≡ w.mem (b.addr + i)
  pub grown_zero : (i : ℕ) → b.size ≤ i → i < s.len → w'.mem (s.addr + i) ≡ some 0
  pub wiped : (a : ℕ) → Inside a b → ¬ Inside a (block s) → w'.mem a ≡ some 0
  pub others : (a : ℕ) → ¬ Inside a b → ¬ Inside a (block s) → w'.mem a ≡ w.mem a
  pub same_page : w'.alloc.page ≡ w.alloc.page
  pub offset : w'.alloc.stack_offset ≤ w.alloc.stack_offset + l.align + round8 l.size
