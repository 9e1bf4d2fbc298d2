-- ===== src/CrateTests/BoxTests.antt =====
-- What the tests on boxes of src/sec_alloc.rs do.
use secmem_alloc.Base.{ℕ, ◌+◌, ◌*◌, ◌≤◌, ◌<◌, ◌≡◌, refl, [], ◌∷◌, ◌++◌, arith, M, ◌>>=◌, ◌>>◌}
use secmem_alloc.Util.Align.{round8}
use secmem_alloc.Layout.{IsLayout}
use secmem_alloc.SecAlloc.{SecStackSinglePageAlloc, Sec, consistency_check}
use secmem_alloc.SecAlloc.Blocks.{Blocks}
use secmem_alloc.SecAlloc.Invariant.{Inv}
use secmem_alloc.SecAlloc.Refine.{sec_allocator}
use secmem_alloc.CrateTests.{
  box_allocation, box_allocations, bytes, align16s,
  many_box_allocations_mixed_align_nonstacked_drop,
}
use secmem_alloc.CrateTests.Boxes.{Boxed, BoxApi, IsBoxApi, Value}
use secmem_alloc.CrateTests.Steps.{
  Ends, bind-Ends, At, behind, check-Ends, new_in-Ends, new_in_empty-Ends, drop_empty-Ends,
  drop-Ends,
}

pub bytes-IsLayout : (v n : ℕ) → n ≤ 2048 → IsLayout (bytes v n).layout
bytes-IsLayout v n h = record { power = (0, omega arith, refl); fits = omega arith }

align16s-IsLayout : (v n : ℕ) → n ≤ 128 → IsLayout (align16s v n).layout
align16s-IsLayout v n h = record { power = (4, omega arith, refl); fits = omega arith }

-- A box for the value can be made where `n` bytes are in use, and then at most `m` are.
abbrev pub Small : Value → ℕ → ℕ → Type 0
Small v n m =
    IsLayout v.layout
    × (0 < v.layout.size)
    × (n + v.layout.align + round8 v.layout.size ≤ m)
    × (m ≤ 2048)

pub bytes-Small :
    (n used : ℕ) → 0 < n → used + 1 + round8 n ≤ 2048 → Small (bytes 1 n) used (used + 1 + round8 n)
bytes-Small n used pos fits = (bytes-IsLayout 1 n (omega arith), pos, omega arith, fits)

pub align16s-Small :
    (n used : ℕ)
    → 0 < n
    → used + 16 + n * 16 ≤ 2048
    → Small (align16s 1 n) used (used + 16 + n * 16)
align16s-Small n used pos fits =
    (align16s-IsLayout 1 n (omega arith), omega arith, omega arith, fits)

module _ (box : BoxApi SecStackSinglePageAlloc) (laws : IsBoxApi sec_allocator box) (w : Sec)
    (start : Inv [] w) (large : 2048 ≤ w.alloc.page.page_size) where
  module _ {R : Unit {0} → Sec → Type 0} where
    check :
        (live : Blocks) (n : ℕ) {k : M Sec (Unit {0})}
        → Ends (At w live n) k R
        → Ends (At w live n) (consistency_check >> k) R
    check live n rest = bind-Ends (check-Ends w start large) (λ u. rest)

    -- A box is made and the state is checked.
    make :
        (live : Blocks) (n m : ℕ) (v : Value) {k : Boxed → M Sec (Unit {0})}
        → Small v n m
        → ((b : Boxed) → 0 < b.layout.size → Ends (At w (behind b ∷ live) m) (k b) R)
        → Ends (At w live n) (box.new_in v >>= (λ b. consistency_check >> k b)) R
    make live n m v (lay, pos, fits, small) rest =
        bind-Ends (new_in-Ends w start large box laws v lay pos (omega arith))
          (λ b s (some_size, (reach, offset)).
            check (behind b ∷ live) m (rest b some_size) s (reach, omega arith))

    -- A box is dropped and the state is checked.
    give :
        (xs ys : Blocks) (b : Boxed) (n : ℕ) {k : M Sec (Unit {0})}
        → 0 < b.layout.size
        → Ends (At w (xs ++ ys) n) k R
        → Ends (At w (xs ++ behind b ∷ ys) n) (box.drop b >> (consistency_check >> k)) R
    give xs ys b n pos rest =
        bind-Ends (drop-Ends w start large box laws xs ys b pos) (λ u. check (xs ++ ys) n rest)

  -- The last box is dropped and the state is checked.
  give_last :
      (b : Boxed) (n : ℕ)
      → 0 < b.layout.size
      → Ends (At w (behind b ∷ []) n) (box.drop b >> consistency_check) (λ u. At w [] n)
  give_last b n pos =
      bind-Ends (drop-Ends w start large box laws [] [] b pos) (λ u. check-Ends w start large)

  pub box_allocation-Ends :
      (v : Value) (m : ℕ) → Small v 0 m → Ends (At w [] 0) (box_allocation box v) (λ u. At w [] m)
  unfolding box_allocation
  box_allocation-Ends v m small = check [] 0 (make [] 0 m v small (λ b pos. give_last b m pos))

  pub box_allocation_empty-Ends :
      (v : Value) → v.layout.size ≡ 0 → Ends (At w [] 0) (box_allocation box v) (λ u. At w [] 0)
  unfolding box_allocation
  box_allocation_empty-Ends v empty = check [] 0 (
      bind-Ends (new_in_empty-Ends w start large box laws v empty) (λ b s (none, at).
        check [] 0
          (bind-Ends (drop_empty-Ends w start large box laws b none)
            (λ u. check-Ends w start large))
          s at))

  pub box_allocations-Ends :
      (v v2 v3 : Value) (m m2 m3 : ℕ)
      → Small v 0 m
      → Small v2 m m2
      → Small v3 m2 m3
      → Ends (At w [] 0) (box_allocations box v v2 v3) (λ u. At w [] m3)
  unfolding box_allocations
  box_allocations-Ends v v2 v3 m m2 m3 small small2 small3 = check [] 0 (
      make [] 0 m v small (λ b pos. make (behind b ∷ []) m m2 v2 small2 (λ b2 pos2.
        give [] (behind b ∷ []) b2 m2 pos2 (
          make (behind b ∷ []) m2 m3 v3 small3
            (λ b3 pos3. give [] (behind b ∷ []) b3 m3 pos3 (give_last b m3 pos))))))

  -- The boxes of this test are dropped in another order than the reverse of that they are made in.
  pub nonstacked-Ends :
      Ends (At w [] 0) (many_box_allocations_mixed_align_nonstacked_drop box) (λ u. At w [] 1233)
  unfolding many_box_allocations_mixed_align_nonstacked_drop
  nonstacked-Ends = check [] 0 (
      make [] 0 192 (align16s 1 11) (align16s-Small 11 0 (omega arith) (omega arith)) (λ b1 p1.
        make (behind b1 ∷ []) 192 1024 (align16s 1 51)
          (align16s-Small 51 192 (omega arith) (omega arith))
          (λ b2 p2.
            make (behind b2 ∷ behind b1 ∷ []) 1024 1169 (bytes 1 143)
              (bytes-Small 143 1024 (omega arith) (omega arith))
              (λ b3 p3. give [] (behind b2 ∷ behind b1 ∷ []) b3 1169 p3 (
                make (behind b2 ∷ behind b1 ∷ []) 1169 1201 (align16s 1 1)
                  (align16s-Small 1 1169 (omega arith) (omega arith))
                  (λ b4 p4.
                    make (behind b4 ∷ behind b2 ∷ behind b1 ∷ []) 1201 1233 (align16s 1 1)
                      (align16s-Small 1 1201 (omega arith) (omega arith))
                      (λ b5 p5. give (behind b5 ∷ behind b4 ∷ []) (behind b1 ∷ []) b2 1233 p2 (
                        give (behind b5 ∷ behind b4 ∷ []) [] b1 1233 p1 (
                          give (behind b5 ∷ []) [] b4 1233 p4
                            (give [] [] b5 1233 p5 (check-Ends w start large)))))))))))
