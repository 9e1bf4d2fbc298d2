-- ===== src/CrateTests/VecSteps.antt =====
-- The state of the unit tests of src/sec_alloc.rs while a vector is alive.
use mathlib.Core.Path.{subst}
use secmem_alloc.Base.{
  ℕ, ◌+◌, ◌≤◌, ◌<◌, ◌≡◌, inl, inr, refl, ap, true, false, [], ◌∷◌, ◌++◌, arith, ◌==◌, Bool-cases,
  pos→==,
}
use secmem_alloc.Util.{Slice}
use secmem_alloc.Util.Align.{round8}
use secmem_alloc.Page.{Page}
use secmem_alloc.Layout.{IsLayout}
use secmem_alloc.SecAlloc.{Sec, consistency_check}
use secmem_alloc.SecAlloc.Blocks.{Block, Blocks}
use secmem_alloc.SecAlloc.Invariant.{Inv, stack_top}
use secmem_alloc.SecAlloc.Allocate.{block_addr, block_addr_lem}
use secmem_alloc.SecAlloc.Fresh.{NoRoom, block_addr-le}
use secmem_alloc.SecAlloc.Checked.{consistency_check-done}
use secmem_alloc.SecAlloc.Client.{Reach, replace}
use secmem_alloc.SecAlloc.Client.Safety.{Reach-Inv}
use secmem_alloc.SecAlloc.Client.Isolation.{Reach-SameOutside}
use secmem_alloc.CrateTests.Vecs.{Bytes, array, Over}
use secmem_alloc.CrateTests.Steps.{Ends, At}

-- The block of a vector.
abbrev pub under : Bytes → Block
under v = record { addr = v.ptr; size = round8 v.cap }

-- The vector is alive, and so are the other blocks, in this order.
abbrev pub Has : Sec → Bytes → Blocks → ℕ → Sec → Type 0
Has w v others n s =
    (xs : Blocks) × (ys : Blocks) × At w (xs ++ under v ∷ ys) n s × (xs ++ ys ≡ others)

pub array-IsLayout : (n : ℕ) → n ≤ 4096 → IsLayout (array n)
array-IsLayout n h = record { power = (0, omega arith, refl); fits = omega arith }

pub under-eq :
    (v : Bytes) (req : ℕ) (s : Slice)
    → Over req s v
    → s.len ≡ round8 req
    → under v ≡ record { addr = s.addr; size = s.len }
under-eq v req s over rounded =
    let at : v.ptr ≡ s.addr = over.0 in
    let size : round8 v.cap ≡ s.len = omega (arith, over.1, over.2) in rw (at, size) refl

-- After a resize that has returned, the slice has taken the place of the block of the vector.
pub resized-Has :
    (w : Sec) (v v' : Bytes) (xs ys : Blocks) (req : ℕ) (s : Slice) (s' : Sec) {n : ℕ}
    → Reach
        (record { live = []; world = w })
        (record { live = replace xs (under v) ys s; world = s' })
    → Over req s v'
    → s.len ≡ round8 req
    → 0 < req
    → s'.alloc.stack_offset ≤ n
    → Has w v' (xs ++ ys) n s'
resized-Has w v v' xs ys req s s' reach over rounded pos le = elim (Bool-cases (s.addr == v.ptr)) [
  | inl same ↦ (
    xs,
    ys,
    (
      subst (λ l. Reach (record { live = []; world = w }) (record { live = l; world = s' }))
          (in_place same) reach,
      le,
    ),
    refl,
  )
  | inr apart ↦ (
    [],
    xs ++ ys,
    (
      subst (λ l. Reach (record { live = []; world = w }) (record { live = l; world = s' }))
          (moved apart) reach,
      le,
    ),
    refl,
  )
]
  where
    some_len : (s.len == 0) ≡ false
    some_len = pos→== s.len (omega arith)

    in_place : (s.addr == v.ptr) ≡ true → replace xs (under v) ys s ≡ xs ++ under v' ∷ ys
    in_place same = rw (some_len, same, under-eq v' req s over rounded) refl

    moved : (s.addr == v.ptr) ≡ false → replace xs (under v) ys s ≡ under v' ∷ (xs ++ ys)
    moved apart = rw (some_len, apart, under-eq v' req s over rounded) refl

module _ (w : Sec) (start : Inv [] w) (large : 2048 ≤ w.alloc.page.page_size) where
  -- With this much of the page in use, a new block would fit.
  pub room :
      {live : Blocks} {n : ℕ} (s : Sec) (req : ℕ)
      → At w live n s
      → 0 < req
      → n + 1 + round8 req ≤ 2048
      → ¬ NoRoom (array req) s
  room s req at pos small full =
      let inv = Reach-Inv start at.0 in
      let same = ap (λ (q : Page). q.page_size) (Reach-SameOutside start at.0).0 in
      let lay = array-IsLayout req (omega arith) in
      let (above, eight, aligned) = block_addr_lem inv (array req) lay in
      let none = full (block_addr (stack_top s) 1) above aligned eight in
      omega (arith, block_addr-le (stack_top s) (array req) lay)

  pub check-Has :
      (v : Bytes) (others : Blocks) (n : ℕ)
      → Ends (Has w v others n) consistency_check (λ _. Has w v others n)
  check-Has v others n s (xs, ys, at, e) =
      (tt, s, consistency_check-done (Reach-Inv start at.0), (xs, ys, at, e))
