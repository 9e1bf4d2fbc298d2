-- ===== src/SecAlloc/Dropped/Ends.antt =====
-- How `drop` of src/sec_alloc.rs ends.
use native.Mathlib.Decide.{ℕ_discrete}
use mathlib.Core.Path.{subst}
use secmem_alloc.Base.{
  ℕ, zero, suc, ◌+◌, ◌≤◌, ◌<◌, ◌≡◌, ◌≢◌, ◌⊎◌, inl, inr, refl, ◌∙◌, ap, true, Option, none, some,
  arith, eq→==, ne→==, done, fault, throw, abort, panic, Fault,
}
use secmem_alloc.Memory.{is_mapped}
use secmem_alloc.Memory.Ranges.{read-done}
use secmem_alloc.Page.{page_size, as_ptr}
use secmem_alloc.SecAlloc.{Sec, check_zero_from, drop, drop_no_std}
use secmem_alloc.SecAlloc.Invariant.{IsPage, InPage}
use secmem_alloc.SecAlloc.Dropped.{AllZero, wrap, check_zero_from-suc}

mapped_byte : (o : Option ℕ) → is_mapped o ≡ true → (v : ℕ) × (o ≡ some v)
mapped_byte none e = cc
mapped_byte (some v) e = (v, refl)

-- A byte of the page is not 0.
abbrev pub SomeByte : Sec → Type 0
SomeByte w = (a : ℕ) × InPage w a × (w.mem a ≢ some 0)

module _ (w : Sec) (page : IsPage w.alloc.page)
    (mapped : (a : ℕ) → InPage w a → is_mapped (w.mem a) ≡ true) where
  -- The loop over the rest of the page goes to its end, or stops at a byte that is not 0, whichever
  -- way it is to complain.
  check_zero_ends :
      (left offset : ℕ)
      → offset + left ≤ w.alloc.page.page_size
      → (((e : Fault) → check_zero_from (throw e) left offset w ≡ done (tt, w))
          × ((a : ℕ)
              → w.alloc.page.page_ptr + offset ≤ a
              → a < w.alloc.page.page_ptr + offset + left
              → w.mem a ≡ some 0))
        ⊎ (((e : Fault) → check_zero_from (throw e) left offset w ≡ fault e) × SomeByte w)
  unfolding check_zero_from as_ptr
  check_zero_ends zero offset h = inl (λ e. refl, λ a p q. absurd (omega arith))
  check_zero_ends (suc left) offset h =
      let (v, byte) =
        mapped_byte (w.mem (w.alloc.page.page_ptr + offset))
          (mapped _ (omega arith, omega arith)) in
      elim (ℕ_discrete v 0) [
        | yes z ↦
            let zero_byte : w.mem (w.alloc.page.page_ptr + offset) ≡ some 0 = byte ∙ ap some z in
            elim (check_zero_ends left (offset + 1) (omega arith)) [
              | inl (ran, zeros) ↦ inl (
                λ e.
                    check_zero_from-suc w page mapped e left offset (omega arith) zero_byte ∙ ran e,
                λ a p q. elim (ℕ_discrete (w.alloc.page.page_ptr + offset) a) [
                  | yes same ↦ subst (λ x. w.mem x ≡ some 0) same zero_byte
                  | no later ↦ zeros a (omega arith) (omega arith)
                ],
              )
              | inr (ran, found) ↦ inr (
                λ e.
                    check_zero_from-suc w page mapped e left offset (omega arith) zero_byte ∙ ran e,
                found,
              )
            ]
        | no nz ↦ inr (
          λ e.
              rw
                (
                  wrap w page mapped e offset (omega arith),
                  read-done (w.alloc.page.page_ptr + offset) v w byte,
                  ne→== v 0 nz,
                )
                refl,
          (
            w.alloc.page.page_ptr + offset,
            (omega arith, omega arith),
            λ z. let same : v ≡ 0 = cc in nz same,
          ),
        )
      ]

  -- Over a mapped page, and whatever its bytes and the counters are, `drop` of either build
  -- comes to an end: it returns, and then no byte is counted as allocated and every byte of the
  -- page is 0; or it aborts with `std` and panics without, and then a byte is counted or a byte
  -- of the page is not 0.
  pub drop_terminates :
      ((drop w ≡ done (tt, w)) × (drop_no_std w ≡ done (tt, w)) × (w.alloc.bytes ≡ 0) × AllZero w)
      ⊎ ((drop w ≡ fault abort)
          × (drop_no_std w ≡ fault panic)
          × ((w.alloc.bytes ≢ 0) ⊎ SomeByte w))
  unfolding drop drop_no_std page_size
  drop_terminates = elim (ℕ_discrete w.alloc.bytes 0) [
    | yes z ↦
        let none_left = eq→== w.alloc.bytes 0 z in
        elim (check_zero_ends w.alloc.page.page_size 0 (omega arith)) [
          | inl (ran, zeros) ↦ inl (
            rw none_left (ran abort),
            rw none_left (ran panic),
            z,
            λ a i. zeros a (omega arith) (omega arith),
          )
          | inr (ran, found) ↦ inr (rw none_left (ran abort), rw none_left (ran panic), inr found)
        ]
    | no nz ↦
        let some_left = ne→== w.alloc.bytes 0 nz in
        inr (rw some_left refl, rw some_left refl, inl nz)
  ]
