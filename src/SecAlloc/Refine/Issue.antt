-- ===== src/SecAlloc/Refine/Issue.antt =====
-- `allocate` of src/sec_alloc.rs and the contract of `Allocator`.
use native.Mathlib.Decide.{dec_lt, ℕ_discrete}
use native.Mathlib.Nat.{mod_self}
use secmem_alloc.Base.{ℕ, ◌+◌, ◌≤◌, ◌<◌, ◌≡◌, ◌⊎◌, inl, inr, refl, ap, arith, ◌∷◌}
use secmem_alloc.Memory.{Memory}
use secmem_alloc.Util.{Slice}
use secmem_alloc.Util.Align.{pos_of_power}
use secmem_alloc.Layout.{Layout, IsLayout}
use secmem_alloc.Traits.Contract.{Separate, IsNew, AllocatesZeroed}
use secmem_alloc.SecAlloc.{Sec, allocate}
use secmem_alloc.SecAlloc.Blocks.{Block, Blocks}
use secmem_alloc.SecAlloc.Members.{IsIn, Outside-IsIn}
use secmem_alloc.SecAlloc.Invariant.{Inv}
use secmem_alloc.SecAlloc.Allocate.{slice}
use secmem_alloc.SecAlloc.Fresh.{block, IsFresh, allocate-IsFresh}
use secmem_alloc.SecAlloc.Contract.{allocate_empty}
use secmem_alloc.SecAlloc.Refine.Allotted.{IsAt, Live}

-- A fresh block shares no byte with a live one.
fresh_separate :
    {bs : Blocks} {l : Layout} {w w' : Sec} {s : Slice}
    → IsFresh bs l w s w'
    → (b : Block) → IsIn b bs
    → 0 < s.len
    → 0 < b.size
    → (s.addr + s.len ≤ b.addr) ⊎ (b.addr + b.size ≤ s.addr)
fresh_separate {bs} {s = s} f b i pos pos' = elim (dec_lt b.addr s.addr) [
  | yes below ↦ ground (arith, Outside-IsIn s.addr b bs (f.separate s.addr (omega arith)) i)
  | no above ↦ elim (dec_lt b.addr (s.addr + s.len)) [
    | yes inside ↦
        absurd (omega (arith, Outside-IsIn b.addr b bs (f.separate b.addr (omega arith)) i))
    | no beyond ↦ inl (omega arith)
  ]
]

IsFresh-IsNew :
    {bs : Blocks} {l : Layout} {w w' : Sec} {s : Slice}
    → 0 < l.size
    → IsFresh bs l w s w'
    → IsNew Inv Live l bs w s (block s ∷ bs) w'
IsFresh-IsNew {bs} {l} {w} {w'} {s} pos f = record {
  ready = f.inv;
  large = f.large;
  aligned = f.aligned;
  live = λ k lay same from to.
      (lay, inr (block s, inl refl, refl, (omega arith, omega (arith, f.rounded))));
  keeps = λ q k live. ((live.0, still q k live.1), λ a x y. ap (λ (m : Memory). m a) f.same_memory);
  separate = λ q k live. off q k live.1;
}
  where
    still : (q : ℕ) (k : Layout) → IsAt bs q k → IsAt (block s ∷ bs) q k
    still q k (inl empty) = inl empty
    still q k (inr (b, i, e, fits)) = inr (b, inr i, e, fits)

    off :
        (q : ℕ) (k : Layout)
        → IsAt bs q k
        → Separate s.addr (record { size = s.len; align = l.align }) q k
    off q k (inl empty) = inr (inl empty.0)
    off q k (inr (b, i, e, fits)) =
        let (fit, rounded) = fits in
        elim (fresh_separate f b i (omega (arith, f.large)) (omega arith)) [
          | inl below ↦ inr (inr (inl (omega arith)))
          | inr above ↦ inr (inr (inr (omega arith)))
        ]

pub empty-IsNew :
    (bs : Blocks) (w : Sec) (l : Layout)
    → Inv bs w
    → IsLayout l
    → l.size ≡ 0
    → IsNew Inv Live l bs w (slice l.align 0) bs w
empty-IsNew bs w l inv lay e = record {
  ready = inv;
  large = omega arith;
  aligned = mod_self l.align;
  live = λ k lay_k same from to. (lay_k, inl (omega arith, pos_of_power lay.power));
  keeps = λ q k live. (live, λ a x y. refl);
  separate = λ q k live. inl refl;
}

pub allocs :
    (bs : Blocks) (w : Sec) (l : Layout)
    → Inv bs w
    → IsLayout l
    → AllocatesZeroed Inv Live l bs w (allocate l w)
allocs bs w l inv lay = elim (ℕ_discrete l.size 0) [
  | yes e ↦ inl (
    slice l.align 0,
    bs,
    w,
    allocate_empty l inv lay e,
    empty-IsNew bs w l inv lay e,
    λ a x y. absurd (omega arith),
  )
  | no some_size ↦ elim (allocate-IsFresh l inv lay (omega arith)) [
    | inl (s, w', ran, f) ↦
        inl
          (s, block s ∷ bs, w', ran, IsFresh-IsNew (omega arith) f, λ a x y. f.zero_bytes a (x, y))
    | inr (ran, full) ↦ inr (w, ran, inv, λ q k live a x y. refl)
  ]
]
