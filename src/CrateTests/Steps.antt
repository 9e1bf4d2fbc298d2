-- ===== src/CrateTests/Steps.antt =====
-- What each command of the unit tests of src/sec_alloc.rs does.
use secmem_alloc.Base.{
  ℕ, ◌+◌, ◌≤◌, ◌<◌, ◌≡◌, refl, ap, ◌∙◌, true, [], ◌∷◌, ◌++◌, arith, M, ◌>>=◌, done, ok, le→leb,
  pos→==, inl, inr, ◌⊎◌,
}
use native.Mathlib.Decide.{dec_lt}
use secmem_alloc.Memory.{Memory, is_mapped}
use secmem_alloc.Traits.{WritesIn}
use secmem_alloc.Util.Align.{round8}
use secmem_alloc.Page.{Page}
use secmem_alloc.Layout.{Layout, IsLayout}
use secmem_alloc.SecAlloc.{SecStackSinglePageAlloc, Sec, consistency_check, allocate}
use secmem_alloc.SecAlloc.Blocks.{Block, Blocks, Inside, not-Inside}
use secmem_alloc.SecAlloc.Invariant.{Inv, stack_top, page_end}
use secmem_alloc.SecAlloc.Allocate.{block_addr, claimed, slice, allocate_zeroed-eq}
use secmem_alloc.SecAlloc.Fresh.{block_addr-le}
use secmem_alloc.SecAlloc.Deallocate.{IsBlock-bounds, rewound_bounds, freed, deallocate-eq}
use secmem_alloc.SecAlloc.Checked.{consistency_check-done}
use secmem_alloc.SecAlloc.Refine.{sec_allocator}
use secmem_alloc.SecAlloc.Client.{Reach, next, allocates, deallocates, writes}
use secmem_alloc.SecAlloc.Client.Safety.{Reach-Inv}
use secmem_alloc.SecAlloc.Client.Isolation.{Reach-SameOutside}
use secmem_alloc.CrateTests.Boxes.{Boxed, BoxApi, IsBoxApi, Value}

-- From every state in `P` the command returns, in a state in `Q`.
abbrev pub Ends : {S A : Type 0} → (S → Type 0) → M S A → (A → S → Type 0) → Type 0
Ends {S} {A} P c Q = (s : S) → P s → (a : A) × (s' : S) × (c s ≡ done (a, s')) × Q a s'

module _ {S A B : Type 0} {P : S → Type 0} {Q : A → S → Type 0} {R : B → S → Type 0} where
  pub bind-Ends :
      {c : M S A} {k : A → M S B} → Ends P c Q → ((a : A) → Ends (Q a) (k a) R) → Ends P (c >>= k) R
  bind-Ends {c} {k} first rest s p =
      let (a, s', ran, q) = first s p in
      let (b, s'', ran', r) = rest a s' q in (b, s'', rw ran ran', r)

-- The block behind a box.
abbrev pub behind : Boxed → Block
behind b = record { addr = b.ptr; size = round8 b.layout.size }

-- Clients have come here from `w`, with these blocks alive, and use at most `n` bytes of the page.
abbrev pub At : Sec → Blocks → ℕ → Sec → Type 0
At w live n v =
    Reach (record { live = []; world = w }) (record { live = live; world = v })
    × (v.alloc.stack_offset ≤ n)

-- A value that is written to a block is written to the larger block behind it, and leaves it mapped.
WritesIn-behind :
    (p : ℕ) (l : Layout) {m m' : Memory}
    → WritesIn p l m m'
    → ((a : ℕ) → Inside a (record { addr = p; size = round8 l.size }) → is_mapped (m a) ≡ true)
    → ((a : ℕ) → ¬ Inside a (record { addr = p; size = round8 l.size }) → m' a ≡ m a)
      × ((a : ℕ) → Inside a (record { addr = p; size = round8 l.size }) → is_mapped (m' a) ≡ true)
WritesIn-behind p l wr mapped = (
  λ a o. wr.elsewhere a (widen (not-Inside a (record { addr = p; size = round8 l.size }) o)),
  λ a i. elim (dec_lt a (p + l.size)) [
    | yes within ↦ wr.still_mapped a i.0 within
    | no beyond ↦ rw (wr.elsewhere a (inr (omega arith))) (mapped a i)
  ],
)
  where
    widen : {a : ℕ} → (a < p) ⊎ (p + round8 l.size ≤ a) → (a < p) ⊎ (p + l.size ≤ a)
    widen (inl h) = inl h
    widen (inr h) = inr (omega arith)

module _ (w : Sec) (start : Inv [] w) (large : 2048 ≤ w.alloc.page.page_size) where
  module _ {live : Blocks} {n : ℕ} where
    pub check-Ends : Ends (At w live n) consistency_check (λ _. At w live n)
    check-Ends v at = (tt, v, consistency_check-done (Reach-Inv start at.0), at)

    -- There is room for the layout.
    pub allocate_small :
        (v : Sec) (l : Layout)
        → At w live n v
        → IsLayout l
        → 0 < l.size
        → n + l.align + round8 l.size ≤ 2048
        → let p = block_addr (stack_top v) l.align in
          allocate l v ≡ done (ok (slice p (round8 l.size)), claimed v p (round8 l.size))
    unfolding allocate
    allocate_small v l at lay pos small =
        let same = ap (λ (q : Page). q.page_size) (Reach-SameOutside start at.0).0 in
        allocate_zeroed-eq (Reach-Inv start at.0) l lay pos
        ∙ rw
            (le→leb (block_addr (stack_top v) l.align + round8 l.size) (page_end v)
              (omega (arith, block_addr-le (stack_top v) l lay)))
            refl

module _ (w : Sec) (start : Inv [] w) (large : 2048 ≤ w.alloc.page.page_size)
    (box : BoxApi SecStackSinglePageAlloc) (laws : IsBoxApi sec_allocator box) where
  module _ {live : Blocks} {n : ℕ} where
    pub new_in-Ends :
        (v : Value)
        → IsLayout v.layout
        → 0 < v.layout.size
        → n + v.layout.align + round8 v.layout.size ≤ 2048
        → Ends (At w live n) (box.new_in v) (λ b s.
          (0 < b.layout.size)
          × At w (behind b ∷ live) (n + v.layout.align + round8 v.layout.size) s)
    new_in-Ends v lay pos small s at =
        let p = block_addr (stack_top s) v.layout.align in
        let size = round8 v.layout.size in
        let ran : allocate v.layout s ≡ done (ok (slice p size), claimed s p size) =
          allocate_small w start large s v.layout at lay pos small in
        let reach : Reach (record { live = []; world = w })
            (record { live = record { addr = p; size = size } ∷ live; world = claimed s p size }) =
          next at.0 (
            allocates v.layout (ok (slice p size), claimed s p size) lay ran
              (rw (pos→== size (omega arith)) refl)) in
        let inv : Inv (record { addr = p; size = size } ∷ live) (claimed s p size) =
          Reach-Inv start reach in
        let (below, within, rounded) =
          IsBlock-bounds [] live (record { addr = p; size = size }) inv in
        let mapped =
          λ (a : ℕ) (i : Inside a (record { addr = p; size = size })). inv.mapped a (omega arith) in
        let (m, placed, wr) =
          laws.places s (claimed s p size) v (slice p size) pos ran
            (λ a h k. mapped a (omega arith)) in
        let (elsewhere, still) = WritesIn-behind p v.layout wr mapped in
        (
          record { ptr = p; layout = v.layout },
          record (claimed s p size) { mem = m },
          placed,
          (
            pos,
            (
              next reach (
                  writes [] (record { addr = p; size = size }) live m (refl, elsewhere, still)
                    refl),
              omega (arith, block_addr-le (stack_top s) v.layout lay),
            ),
          ),
        )

    -- A value of size 0 takes no room.
    pub new_in_empty-Ends :
        (v : Value)
        → v.layout.size ≡ 0
        → Ends (At w live n) (box.new_in v) (λ b s. (b.layout.size ≡ 0) × At w live n s)
    new_in_empty-Ends v empty s at =
        let (p, ran) = laws.places_nothing s v empty in
        (record { ptr = p; layout = v.layout }, s, ran, (empty, at))

    pub drop_empty-Ends :
        (b : Boxed) → b.layout.size ≡ 0 → Ends (At w live n) (box.drop b) (λ _. At w live n)
    drop_empty-Ends b empty s at = (tt, s, laws.gives_nothing_back s b empty, at)

  pub drop-Ends :
      (xs ys : Blocks) (b : Boxed) {n : ℕ}
      → 0 < b.layout.size
      → Ends (At w (xs ++ behind b ∷ ys) n) (box.drop b) (λ _. At w (xs ++ ys) n)
  drop-Ends xs ys b pos s at =
      let inv = Reach-Inv start at.0 in
      let ran = deallocate-eq xs ys (behind b) inv b.layout (pos, refl) in
      (
        tt,
        freed s (behind b),
        laws.gives_back s b pos ∙ ran,
        (
          next at.0 (
              deallocates xs (behind b) ys b.layout (freed s (behind b)) (refl, (pos, refl)) ran
                refl),
          omega (arith, rewound_bounds xs ys (behind b) inv),
        ),
      )
