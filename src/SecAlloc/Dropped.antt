-- ===== src/SecAlloc/Dropped.antt =====
-- The end of the allocator of src/sec_alloc.rs: when `drop` finds nothing to complain of.
pub mod Ends
use native.Mathlib.Decide.{ℕ_discrete}
use mathlib.Core.Path.{subst}
use secmem_alloc.Base.{
  wrapping_add, ℕ, zero, suc, ◌+◌, ◌≤◌, ◌<◌, ◌≡◌, ◌↔◌, inl, inr, refl, ◌∙◌, sym, true, some, [],
  ◌∷◌, arith, ◌==◌, Bool-cases, done, fault, throw, abort, panic, Fault, eq→==, ne→==, ==→eq,
}
use secmem_alloc.Memory.{is_mapped, read}
use secmem_alloc.Memory.Ranges.{read-done}
use secmem_alloc.Page.{page_size, as_ptr}
use secmem_alloc.SecAlloc.{Sec, check_zero_from, drop, drop_no_std}
use secmem_alloc.SecAlloc.Blocks.{Block, Blocks}
use secmem_alloc.SecAlloc.Invariant.{IsPage, Inv, InPage}

-- Every byte of the page is 0.
abbrev pub AllZero : Sec → Type 0
AllZero w = (a : ℕ) → InPage w a → w.mem a ≡ some 0

module _ (w : Sec) (page : IsPage w.alloc.page)
    (mapped : (a : ℕ) → InPage w a → is_mapped (w.mem a) ≡ true) (e : Fault) where
  pub wrap :
      (offset : ℕ)
      → offset < w.alloc.page.page_size
      → wrapping_add w.alloc.page.page_ptr offset ≡ w.alloc.page.page_ptr + offset
  wrap offset h = omega (arith, page)

  -- One round of the loop goes on exactly if the byte is 0.
  pub check_zero_from-suc :
      (left offset : ℕ)
      → offset < w.alloc.page.page_size
      → w.mem (w.alloc.page.page_ptr + offset) ≡ some 0
      → check_zero_from (throw e) (suc left) offset w
        ≡ check_zero_from (throw e) left (offset + 1) w
  unfolding check_zero_from as_ptr
  check_zero_from-suc left offset h z =
      rw (wrap offset h, read-done (w.alloc.page.page_ptr + offset) 0 w z)

  check_zero_from_head :
      (left offset : ℕ)
      → offset < w.alloc.page.page_size
      → check_zero_from (throw e) (suc left) offset w ≡ done (tt, w)
      → w.mem (w.alloc.page.page_ptr + offset) ≡ some 0
  unfolding check_zero_from as_ptr read
  check_zero_from_head left offset h r =
      ground (arith, wrap offset h, mapped (w.alloc.page.page_ptr + offset))

  -- The loop returns on zeros.
  pub check_zero_from-done :
      (left offset : ℕ)
      → offset + left ≤ w.alloc.page.page_size
      → ((a : ℕ)
          → w.alloc.page.page_ptr + offset ≤ a
          → a < w.alloc.page.page_ptr + offset + left
          → w.mem a ≡ some 0)
      → check_zero_from (throw e) left offset w ≡ done (tt, w)
  unfolding check_zero_from
  check_zero_from-done zero offset h z = refl
  check_zero_from-done (suc left) offset h z =
      check_zero_from-suc left offset (omega arith) (z _ (omega arith) (omega arith))
      ∙ check_zero_from-done left (offset + 1) (omega arith)
          (λ a p q. z a (omega arith) (omega arith))

  -- If it returns it has seen nothing but zeros.
  check_zero_from-zero :
      (left offset : ℕ)
      → offset + left ≤ w.alloc.page.page_size
      → check_zero_from (throw e) left offset w ≡ done (tt, w)
      → (a : ℕ) → w.alloc.page.page_ptr + offset ≤ a
      → a < w.alloc.page.page_ptr + offset + left
      → w.mem a ≡ some 0
  check_zero_from-zero zero offset h r a p q = absurd (omega arith)
  check_zero_from-zero (suc left) offset h r a p q =
      let head = check_zero_from_head left offset (omega arith) r in
      elim (ℕ_discrete (w.alloc.page.page_ptr + offset) a) [
        | yes same ↦ subst (λ x. w.mem x ≡ some 0) same head
        | no later ↦
            check_zero_from-zero left (offset + 1) (omega arith)
              (sym (check_zero_from-suc left offset (omega arith) head) ∙ r) a (omega arith)
              (omega arith)
      ]

  check_zero_iff : (check_zero_from (throw e) w.alloc.page.page_size 0 w ≡ done (tt, w)) ↔ AllZero w
  check_zero_iff = (
    λ r a h.
        check_zero_from-zero w.alloc.page.page_size 0 (omega arith) r a (omega arith) (omega arith),
    λ z. check_zero_from-done w.alloc.page.page_size 0 (omega arith) (λ a p q. z a (omega arith)),
  )

module _ (w : Sec) (page : IsPage w.alloc.page)
    (mapped : (a : ℕ) → InPage w a → is_mapped (w.mem a) ≡ true) where
  -- Over a mapped page, `drop` of the build with `std` returns exactly if no byte is counted as
  -- allocated and every byte of the page is 0.
  pub drop_iff : (drop w ≡ done (tt, w)) ↔ ((w.alloc.bytes ≡ 0) × AllZero w)
  unfolding drop page_size
  drop_iff = elim (Bool-cases (w.alloc.bytes == 0)) [
    | inl e ↦ rw e (
      λ r. (==→eq _ _ e, (check_zero_iff w page mapped abort).0 r),
      λ z. (check_zero_iff w page mapped abort).1 z.1,
    )
    | inr e ↦ rw e (λ r. cc, λ z. cc (eq→== _ _ z.0))
  ]

  -- Over a mapped page, `drop` of the build without `std` returns exactly if no byte is counted
  -- as allocated and every byte of the page is 0.
  pub drop_no_std_iff : (drop_no_std w ≡ done (tt, w)) ↔ ((w.alloc.bytes ≡ 0) × AllZero w)
  unfolding drop_no_std page_size
  drop_no_std_iff = elim (Bool-cases (w.alloc.bytes == 0)) [
    | inl e ↦ rw e (
      λ r. (==→eq _ _ e, (check_zero_iff w page mapped panic).0 r),
      λ z. (check_zero_iff w page mapped panic).1 z.1,
    )
    | inr e ↦ rw e (λ r. cc, λ z. cc (eq→== _ _ z.0))
  ]

-- With no block alive the allocator can be dropped, in both builds.
pub drop-done : {w : Sec} → Inv [] w → (drop w ≡ done (tt, w)) × (drop_no_std w ≡ done (tt, w))
drop-done {w} inv =
    ((drop_iff w inv.page inv.mapped).1 clean, (drop_no_std_iff w inv.page inv.mapped).1 clean)
  where
    clean : (w.alloc.bytes ≡ 0) × AllZero w
    clean = (inv.counted, λ a h. inv.zeroed a h tt)

-- A block that is still alive when the allocator is dropped is noticed.
pub drop_leak :
    {b : Block} {bs : Blocks} {w : Sec}
    → Inv (b ∷ bs) w
    → (drop w ≡ fault abort) × (drop_no_std w ≡ fault panic)
unfolding drop drop_no_std
drop_leak {b} {bs} {w} inv =
    rw (ne→== w.alloc.bytes 0 (omega (arith, inv.stacked.1, inv.counted))) (refl, refl)
