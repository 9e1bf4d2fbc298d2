-- ===== src/CrateTests/VecPass.antt =====
-- What the tests on vectors of src/sec_alloc.rs do.
use secmem_alloc.Base.{ℕ, ◌≤◌, ◌<◌, ◌≡◌, [], ◌∷◌, arith, M, ◌>>=◌, ◌>>◌}
use secmem_alloc.SecAlloc.{SecStackSinglePageAlloc, Sec, consistency_check}
use secmem_alloc.SecAlloc.Blocks.{Blocks}
use secmem_alloc.SecAlloc.Invariant.{Inv}
use secmem_alloc.SecAlloc.Refine.{sec_allocator}
use secmem_alloc.CrateTests.Boxes.{Boxed, BoxApi, IsBoxApi}
use secmem_alloc.CrateTests.Vecs.{Bytes, VecApi, Sizing, IsVecApi, IsModest}
use secmem_alloc.CrateTests.VecTests.{
  sec_methods, u64, vec_allocation_9b, vec_allocation_grow_repeated, vec_allocation_nonfinal_grow,
  vec_allocation_shrink, vec_allocation_nonfinal_shrink,
}
use secmem_alloc.CrateTests.Steps.{Ends, bind-Ends, At, behind, check-Ends}
use secmem_alloc.CrateTests.VecSteps.{Has, check-Has}
use secmem_alloc.CrateTests.VecCalls.{
  with_capacity_in-Ends, reserve-Ends, push-Ends, shrink_to_fit-Ends, drop-Ends,
}
use secmem_alloc.CrateTests.Beside.{beside-Ends, drop_beside-Ends}

module _ (w : Sec) (start : Inv [] w) (large : 2048 ≤ w.alloc.page.page_size)
    (box : BoxApi SecStackSinglePageAlloc) (box_laws : IsBoxApi sec_allocator box) where
  module _ {R : Unit {0} → Sec → Type 0} {k : M Sec (Unit {0})} where
    check :
        (live : Blocks) (n : ℕ)
        → Ends (At w live n) k R
        → Ends (At w live n) (consistency_check >> k) R
    check live n rest = bind-Ends (check-Ends w start large) (λ u. rest)

    check_has :
        (v : Bytes) (others : Blocks) (n : ℕ)
        → Ends (Has w v others n) k R
        → Ends (Has w v others n) (consistency_check >> k) R
    check_has v others n rest = bind-Ends (check-Has w start large v others n) (λ u. rest)

  module _ (sizing : Sizing) (modest : IsModest sizing) (vec : VecApi SecStackSinglePageAlloc)
      (laws : IsVecApi sec_methods sizing vec) where
    -- The vector that all of the tests begin with.
    nine :
        {k : Bytes → M Sec (Unit {0})} {R : Unit {0} → Sec → Type 0}
        → ((v : Bytes) → 9 ≤ v.cap → v.cap ≤ 80 → v.len ≡ 0 → Ends (Has w v [] 81) (k v) R)
        → Ends
            (At w [] 0)
            (consistency_check >> (vec.with_capacity_in 9 >>= (λ v. consistency_check >> k v)))
            R
    nine rest = check [] 0 (
        bind-Ends
          (with_capacity_in-Ends w start large sizing modest vec laws [] 0 81 9 (omega arith)
            (omega arith) (omega arith))
          (λ v s (enough, few, none, has).
            check_has v [] 81 (rest v enough (omega arith) none) s has))

    -- The vector that all of them end with.
    last :
        (v : Bytes) (n : ℕ)
        → 0 < v.cap
        → Ends (Has w v [] n) (vec.drop v >> consistency_check) (λ u. At w [] n)
    last v n pos =
        bind-Ends (drop-Ends w start large sizing modest vec laws v [] n pos)
          (λ u. check-Ends w start large)

    -- Two calls of `reserve` on a vector that is still empty.
    reserve_twice :
        (v : Bytes) (others : Blocks) (n : ℕ) {k : Bytes → M Sec (Unit {0})}
        {R : Unit {0} → Sec → Type 0}
        → 0 < v.cap
        → v.cap ≤ 80
        → v.len ≡ 0
        → n ≤ 97
        → ((v' : Bytes) → 0 < v'.cap → Ends (Has w v' others 907) (k v') R)
        → Ends
            (Has w v others n)
            (vec.reserve v 10 >>= (λ v'.
              consistency_check >> (vec.reserve v' 17 >>= (λ v''. consistency_check >> k v''))))
            R
    reserve_twice v others n pos few none le rest =
        bind-Ends
          (reserve-Ends w start large sizing modest vec laws v others n 338 10 pos (omega arith)
            (omega arith))
          (λ v' s (pos', few', same', has').
            check_has v' others 338
              (bind-Ends
                (reserve-Ends w start large sizing modest vec laws v' others 338 907 17 pos'
                  (omega arith) (omega arith))
                (λ v'' s (pos'', few'', same'', has'').
                  check_has v'' others 907 (rest v'' pos'') s has''))
              s has')

    -- A byte is pushed, and then the vector is shrunk.
    push_and_shrink :
        (v : Bytes) (others : Blocks) (n x : ℕ) {k : Bytes → M Sec (Unit {0})}
        {R : Unit {0} → Sec → Type 0}
        → 0 < v.cap
        → v.cap ≤ 80
        → v.len ≡ 0
        → n ≤ 97
        → ((v' : Bytes) → 0 < v'.cap → Ends (Has w v' others 907) (k v') R)
        → Ends
            (Has w v others n)
            (vec.push v x >>= (λ v'.
              consistency_check >> (vec.shrink_to_fit v' >>= (λ v''. consistency_check >> k v''))))
            R
    push_and_shrink v others n x pos few none le rest =
        bind-Ends (push-Ends w start large sizing modest vec laws v others n x (omega arith))
          (λ v' s (same_cap, one, has').
            check_has v' others n
              (bind-Ends
                (shrink_to_fit-Ends w start large sizing modest vec laws v' others n 907
                  (omega arith) (omega arith) (omega arith) (omega arith))
                (λ v'' s (pos'', has''). check_has v'' others 907 (rest v'' pos'') s has''))
              s has')

    -- A box is made beside the vector, and dropped before it.
    with_box :
        (v : Bytes) {k : Boxed → M Sec (Unit {0})} {R : Unit {0} → Sec → Type 0}
        → ((b : Boxed) → 0 < b.layout.size → Ends (Has w v (behind b ∷ []) 97) (k b) R)
        → Ends (Has w v [] 81) (box.new_in (u64 37) >>= (λ b. consistency_check >> k b)) R
    with_box v rest =
        bind-Ends (beside-Ends w start large box box_laws v 81 97 (omega arith) (omega arith))
          (λ b s (pos, has). check_has v (behind b ∷ []) 97 (rest b pos) s has)

    drop_both :
        (v : Bytes) (b : Boxed)
        → 0 < v.cap
        → 0 < b.layout.size
        → Ends
            (Has w v (behind b ∷ []) 907)
            (box.drop b >> (consistency_check >> (vec.drop v >> consistency_check)))
            (λ u. At w [] 907)
    drop_both v b pos some_size =
        bind-Ends (drop_beside-Ends w start large box box_laws v b 907 some_size)
          (λ u. check_has v [] 907 (last v 907 pos))

    pub vec_allocation_9b-Ends : Ends (At w [] 0) (vec_allocation_9b vec) (λ u. At w [] 81)
    unfolding vec_allocation_9b
    vec_allocation_9b-Ends = nine (λ v enough few none. last v 81 (omega arith))

    pub grow_repeated-Ends : Ends (At w [] 0) (vec_allocation_grow_repeated vec) (λ u. At w [] 907)
    unfolding vec_allocation_grow_repeated
    grow_repeated-Ends = nine (λ v enough few none.
        reserve_twice v [] 81 (omega arith) few none (omega arith) (λ v' pos. last v' 907 pos))

    pub nonfinal_grow-Ends :
        Ends (At w [] 0) (vec_allocation_nonfinal_grow box vec) (λ u. At w [] 907)
    unfolding vec_allocation_nonfinal_grow
    nonfinal_grow-Ends = nine (λ v enough few none. with_box v (λ b some_size.
        reserve_twice v (behind b ∷ []) 97 (omega arith) few none (omega arith)
          (λ v' pos. drop_both v' b pos some_size)))

    pub shrink-Ends : Ends (At w [] 0) (vec_allocation_shrink vec) (λ u. At w [] 907)
    unfolding vec_allocation_shrink
    shrink-Ends = nine (λ v enough few none.
        push_and_shrink v [] 81 255 (omega arith) few none (omega arith)
          (λ v' pos. last v' 907 pos))

    pub nonfinal_shrink-Ends :
        Ends (At w [] 0) (vec_allocation_nonfinal_shrink box vec) (λ u. At w [] 907)
    unfolding vec_allocation_nonfinal_shrink
    nonfinal_shrink-Ends = nine (λ v enough few none. with_box v (λ b some_size.
        push_and_shrink v (behind b ∷ []) 97 1 (omega arith) few none (omega arith)
          (λ v' pos. drop_both v' b pos some_size)))
