-- ===== src/CrateTests/Beside.antt =====
-- A vector with a box beside it, in the unit tests of src/sec_alloc.rs.
use mathlib.Core.Path.{subst₂}
use secmem_alloc.Base.{ℕ, ◌+◌, ◌≤◌, ◌<◌, ◌≡◌, ◌⊎◌, inl, inr, refl, [], ◌∷◌, ◌++◌, arith}
use secmem_alloc.SecAlloc.{SecStackSinglePageAlloc, Sec}
use secmem_alloc.SecAlloc.Blocks.{Block, Blocks}
use secmem_alloc.SecAlloc.Invariant.{Inv}
use secmem_alloc.SecAlloc.Refine.{sec_allocator}
use secmem_alloc.CrateTests.Boxes.{Boxed, BoxApi, IsBoxApi}
use secmem_alloc.CrateTests.Vecs.{Bytes}
use secmem_alloc.CrateTests.VecTests.{u64}
use secmem_alloc.CrateTests.Steps.{Ends, At, behind, new_in-Ends, drop-Ends as drop_box-Ends}
use secmem_alloc.CrateTests.VecSteps.{under, Has}

-- How two lists make up one with a single member, or with none.
none_split : (xs ys : Blocks) → xs ++ ys ≡ [] → (xs ≡ []) × (ys ≡ [])
none_split [] ys e = (refl, e)
none_split (c ∷ xs) ys e = absurd (cc e)

one_split :
    (b : Block) (xs ys : Blocks)
    → xs ++ ys ≡ b ∷ []
    → ((xs ≡ []) × (ys ≡ b ∷ [])) ⊎ ((xs ≡ b ∷ []) × (ys ≡ []))
one_split b [] ys e = inl (refl, e)
one_split b (c ∷ xs) ys e =
    let head : c ≡ b = cc e in
    let tail : xs ++ ys ≡ [] = cc e in
    let (no_xs, no_ys) = none_split xs ys tail in inr (rw (head, no_xs) refl, no_ys)

module _ (w : Sec) (start : Inv [] w) (large : 2048 ≤ w.alloc.page.page_size)
    (box : BoxApi SecStackSinglePageAlloc) (box_laws : IsBoxApi sec_allocator box) where
  -- A box is made beside a vector.
  pub beside-Ends :
      (v : Bytes) (n m : ℕ)
      → n + 16 ≤ m
      → m ≤ 2048
      → Ends
          (Has w v [] n)
          (box.new_in (u64 37))
          (λ b s. (0 < b.layout.size) × Has w v (behind b ∷ []) m s)
  beside-Ends v n m fits small s (xs, ys, at, e) =
      let (no_xs, no_ys) = none_split xs ys e in
      let alone : At w (under v ∷ []) n s =
        subst₂ (λ (a b : Blocks). At w (a ++ under v ∷ b) n s) no_xs no_ys at in
      let (b, s', ran, (pos, (reach, le))) =
        new_in-Ends w start large box box_laws (u64 37)
          (record { power = (3, omega arith, refl); fits = omega arith }) (omega arith)
          (omega arith) s alone in
      (b, s', ran, (pos, (behind b ∷ [], [], (reach, omega arith), refl)))

  pub drop_beside-Ends :
      (v : Bytes) (b : Boxed) (n : ℕ)
      → 0 < b.layout.size
      → Ends (Has w v (behind b ∷ []) n) (box.drop b) (λ u. Has w v [] n)
  drop_beside-Ends v b n pos s (xs, ys, at, e) = elim (one_split (behind b) xs ys e) [
    | inl (no_xs, one) ↦
        let both = subst₂ (λ (c d : Blocks). At w (c ++ under v ∷ d) n s) no_xs one at in
        let (u, s', ran, left) =
          drop_box-Ends w start large box box_laws (under v ∷ []) [] b pos s both in
        (u, s', ran, ([], [], left, refl))
    | inr (one, no_ys) ↦
        let both = subst₂ (λ (c d : Blocks). At w (c ++ under v ∷ d) n s) one no_ys at in
        let (u, s', ran, left) =
          drop_box-Ends w start large box box_laws [] (under v ∷ []) b pos s both in
        (u, s', ran, ([], [], left, refl))
  ]
