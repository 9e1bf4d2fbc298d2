-- ===== src/CrateTests/VecCalls.antt =====
-- What each command on a vector does in the unit tests of src/sec_alloc.rs.
use native.Mathlib.Decide.{dec_le, dec_lt}
use mathlib.Core.Path.{subst}
use secmem_alloc.Base.{
  ℕ, ◌+◌, ◌*◌, ◌≤◌, ◌<◌, ◌≡◌, inl, inr, refl, ◌∙◌, true, [], ◌∷◌, arith, pos→==, done, ok,
}
use secmem_alloc.Memory.{Memory, is_mapped, fill}
use secmem_alloc.Memory.Ranges.{fill-inside, fill-outside}
use secmem_alloc.Util.Align.{round8}
use secmem_alloc.SecAlloc.{SecStackSinglePageAlloc, Sec, allocate}
use secmem_alloc.CrateTests.VecTests.{sec_methods}
use secmem_alloc.SecAlloc.Blocks.{Blocks, Inside, not-Inside}
use secmem_alloc.SecAlloc.Invariant.{Inv, stack_top}
use secmem_alloc.SecAlloc.Allocate.{block_addr, claimed, slice}
use secmem_alloc.SecAlloc.Deallocate.{IsBlock-bounds, rewound_bounds, freed, deallocate-eq}
use secmem_alloc.SecAlloc.Fresh.{block_addr-le}
use secmem_alloc.SecAlloc.Contract.{grow-Moves, shrink-Moves}
use secmem_alloc.SecAlloc.Client.{Reach, next, allocates, deallocates, shrinks, grows, writes}
use secmem_alloc.SecAlloc.Client.Safety.{Reach-Inv}
use secmem_alloc.CrateTests.Vecs.{Bytes, VecApi, Sizing, IsVecApi, IsModest, array}
use secmem_alloc.CrateTests.Steps.{Ends, At, allocate_small}
use secmem_alloc.CrateTests.VecSteps.{under, Has, array-IsLayout, under-eq, resized-Has, room}

module _ (w : Sec) (start : Inv [] w) (large : 2048 ≤ w.alloc.page.page_size) where
  module _ (sizing : Sizing) (modest : IsModest sizing) (vec : VecApi SecStackSinglePageAlloc)
      (laws : IsVecApi sec_methods sizing vec) where
    pub with_capacity_in-Ends :
        (live : Blocks) (n m size : ℕ)
        → 0 < size
        → n + 1 + round8 (size + 64) ≤ m
        → m ≤ 2048
        → Ends
            (At w live n)
            (vec.with_capacity_in size)
            (λ v s. (size ≤ v.cap) × (v.cap ≤ size + 71) × (v.len ≡ 0) × Has w v live m s)
    with_capacity_in-Ends live n m size pos fits small s at =
        let req = sizing.first size in
        let enough = laws.makes_enough size in
        let few = modest.first_le size in
        let takes = laws.makes s size pos in
        let lay = array-IsLayout req (omega arith) in
        let p = block_addr (stack_top s) 1 in
        let s' : Sec = claimed s p (round8 req) in
        let ran : allocate (array req) s ≡ done (ok (slice p (round8 req)), s') =
          allocate_small w start large s (array req) at lay (omega arith) (omega arith) in
        let (v, ran', over, none) = takes.returns (slice p (round8 req)) s' ran lay (omega arith) in
        let reach : Reach (record { live = []; world = w })
            (record { live = under v ∷ live; world = s' }) =
          next at.0 (
            allocates (array req) (ok (slice p (round8 req)), s') lay ran
              (rw
                (pos→== (round8 req) (omega arith), under-eq v req (slice p (round8 req)) over refl)
                refl)) in
        (
          v,
          s',
          ran',
          (
            omega (arith, over.1),
            omega (arith, over.2),
            none,
            ([], live, (reach, omega (arith, block_addr-le (stack_top s) (array req) lay)), refl),
          ),
        )

    pub reserve-Ends :
        (v : Bytes) (others : Blocks) (n m more : ℕ)
        → 0 < v.cap
        → n + 1 + round8 (2 * v.cap + v.len + more + 64) ≤ m
        → m ≤ 2048
        → Ends (Has w v others n) (vec.reserve v more) (λ v' s.
          (0 < v'.cap)
          × (v'.cap ≤ 2 * v.cap + v.len + more + 71)
          × (v'.len ≡ v.len)
          × Has w v' others m s)
    reserve-Ends v others n m more pos fits small s (xs, ys, at, e) =
        elim (dec_le (v.len + more) v.cap) [
          | yes enough ↦ (
            v,
            s,
            laws.keeps_capacity s v more enough,
            (pos, omega arith, refl, (xs, ys, (at.0, omega arith), e)),
          )
          | no short ↦
              let req = sizing.larger v more in
              let large_enough = laws.reserves_enough v more (omega arith) in
              let few = modest.larger_le v more in
              let takes = laws.reserves s v more pos (omega arith) in
              let lay = array-IsLayout req (omega arith) in
              elim (grow-Moves xs ys (under v) (Reach-Inv start at.0) (array v.cap) (array req)
                (pos, refl) lay (omega arith)) [
                  | inl (sl, s', ran, res) ↦
                      let (v', ran', over, same_len) = takes.returns sl s' ran lay res.large in
                      let reach = next at.0 (
                        grows xs (under v) ys (array v.cap) (array req) (ok sl, s')
                          (refl, (pos, refl), lay, omega arith) ran refl) in
                      (
                        v',
                        s',
                        ran',
                        (
                          omega (arith, over.1),
                          omega (arith, over.2, res.rounded),
                          same_len,
                          subst (λ o. Has w v' o m s') e
                              (resized-Has w v v' xs ys req sl s' reach over res.rounded
                                (omega arith) (omega (arith, res.offset))),
                        ),
                      )
                  | inr (failed, full) ↦
                      absurd (room w start large s req at (omega arith) (omega arith) full)
                ]
        ]

    pub push-Ends :
        (v : Bytes) (others : Blocks) (n x : ℕ)
        → v.len < v.cap
        → Ends
            (Has w v others n)
            (vec.push v x)
            (λ v' s. (v'.cap ≡ v.cap) × (v'.len ≡ v.len + 1) × Has w v' others n s)
    push-Ends v others n x short s (xs, ys, at, e) =
        let inv = Reach-Inv start at.0 in
        let inside = IsBlock-bounds xs ys (under v) inv in
        let mapped : (a : ℕ) → Inside a (under v) → is_mapped (s.mem a) ≡ true =
          λ a i. inv.mapped a (omega (arith, inside, inv.offset_in_page)) in
        let m : Memory = fill s.mem (v.ptr + v.len) x 1 in
        let elsewhere : (a : ℕ) → ¬ Inside a (under v) → m a ≡ s.mem a = λ a o.
          fill-outside s.mem (v.ptr + v.len) x 1 a (omega (arith, not-Inside a (under v) o)) in
        let still : (a : ℕ) → Inside a (under v) → is_mapped (m a) ≡ true = λ a i. ground (
          arith,
          mapped a i,
          fill-inside s.mem (v.ptr + v.len) x 1 a,
          fill-outside s.mem (v.ptr + v.len) x 1 a,
        ) in
        (
          record v { len = v.len + 1 },
          record s { mem = m },
          laws.pushes s v x short (mapped (v.ptr + v.len) (omega arith)),
          (
            refl,
            refl,
            (xs, ys, (next at.0 (writes xs (under v) ys m (refl, elsewhere, still) refl), at.1), e),
          ),
        )

    pub shrink_to_fit-Ends :
        (v : Bytes) (others : Blocks) (n m : ℕ)
        → 0 < v.len
        → v.len ≤ v.cap
        → n + 1 + round8 v.cap ≤ m
        → m ≤ 2048
        → Ends (Has w v others n) (vec.shrink_to_fit v) (λ v' s. (0 < v'.cap) × Has w v' others m s)
    shrink_to_fit-Ends v others n m pos le fits small s (xs, ys, at, e) =
        elim (dec_lt v.len v.cap) [
          | no full ↦ (
            v,
            s,
            laws.keeps_fit s v (omega arith),
            (omega arith, (xs, ys, (at.0, omega arith), e)),
          )
          | yes more ↦
              let takes = laws.shrinks s v pos more in
              let lay = array-IsLayout v.len (omega arith) in
              elim (shrink-Moves xs ys (under v) (Reach-Inv start at.0) (array v.cap) (array v.len)
                (omega arith, refl) lay le (omega arith)) [
                  | inl (sl, s', ran, res) ↦
                      let (v', ran', over, same_len) = takes.returns sl s' ran lay res.large in
                      let reach = next at.0 (
                        shrinks xs (under v) ys (array v.cap) (array v.len) (ok sl, s')
                          (refl, (omega arith, refl), lay, le) ran refl) in
                      (
                        v',
                        s',
                        ran',
                        (
                          omega (arith, over.1),
                          subst (λ o. Has w v' o m s') e
                              (resized-Has w v v' xs ys v.len sl s' reach over res.rounded
                                (omega arith) (omega (arith, res.offset))),
                        ),
                      )
                  | inr (failed, full) ↦
                      absurd (room w start large s v.len at (omega arith) (omega arith) full)
                ]
        ]

    pub drop-Ends :
        (v : Bytes) (others : Blocks) (n : ℕ)
        → 0 < v.cap
        → Ends (Has w v others n) (vec.drop v) (λ u. At w others n)
    drop-Ends v others n pos s (xs, ys, at, e) =
        let inv = Reach-Inv start at.0 in
        let ran = deallocate-eq xs ys (under v) inv (array v.cap) (pos, refl) in
        (
          tt,
          freed s (under v),
          laws.gives_back s v pos ∙ ran,
          subst (λ o. At w o n (freed s (under v))) e
              (
                next at.0 (
                    deallocates xs (under v) ys (array v.cap) (freed s (under v))
                      (refl, (pos, refl)) ran refl),
                omega (arith, rewound_bounds xs ys (under v) inv),
              ),
        )
