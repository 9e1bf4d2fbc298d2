-- ===== src/Traits/Runs.antt =====
-- Two runs of the clients of an allocator that make the same calls, but write other bytes to the blocks
-- that they hold.
use secmem_alloc.Base.{
  ℕ, ◌+◌, ◌≤◌, ◌<◌, ◌≡◌, ◌⊎◌, inl, inr, List, [], ◌∷◌, ◌++◌, arith, done, Result, ok, err,
}
use secmem_alloc.Memory.{Memory, World}
use secmem_alloc.Util.{Slice}
use secmem_alloc.Layout.{Layout, IsLayout, AllocError}
use secmem_alloc.Traits.{Allocator, WritesIn}
use secmem_alloc.Traits.Contract.{Separate}
use secmem_alloc.Traits.Discreet.{Free, Rest}

-- A block and the layout that it was allocated with.
pub record Lease : Type 0 where
  pub addr : ℕ
  pub layout : Layout

-- The blocks that are held, and the state.
pub record Holding (A : Type 0) : Type 0 where
  pub held : List Lease
  pub world : World A

abbrev pub Answer : Type 0
Answer = Result Slice AllocError

abbrev pub leased : Answer → Layout → List Lease → List Lease
leased (ok s) l held = record { addr = s.addr; layout = l } ∷ held
leased (err e) l held = held

-- The address is in a block that is held.
abbrev pub Covered : List Lease → ℕ → Type 0
Covered [] x = ⊥
Covered (c ∷ cs) x = ((c.addr ≤ x) × (x < c.addr + c.layout.size)) ⊎ Covered cs x

-- The two runs, each with what the allocations have returned, the last first.
pub data Twins {A : Type 0} (a : Allocator A) (s : Holding A)
    : List Answer → Holding A → List Answer → Holding A → Type 0 where
  begin : Twins a s [] s [] s
  allocate_both :
      {rs rs' : List Answer} {t t' : Holding A}
      → Twins a s rs t rs' t'
      → (l : Layout) (r r' : Answer) (w w' : World A) → IsLayout l
      → a.allocate l t.world ≡ done (r, w)
      → a.allocate l t'.world ≡ done (r', w')
      → Twins a s
          (r ∷ rs)
          (record { held = leased r l t.held; world = w })
          (r' ∷ rs')
          (record { held = leased r' l t'.held; world = w' })
  allocate_zeroed_both :
      {rs rs' : List Answer} {t t' : Holding A}
      → Twins a s rs t rs' t'
      → (l : Layout) (r r' : Answer) (w w' : World A) → IsLayout l
      → a.allocate_zeroed l t.world ≡ done (r, w)
      → a.allocate_zeroed l t'.world ≡ done (r', w')
      → Twins a s
          (r ∷ rs)
          (record { held = leased r l t.held; world = w })
          (r' ∷ rs')
          (record { held = leased r' l t'.held; world = w' })
  deallocate_both :
      {rs rs' : List Answer} {t t' : Holding A}
      → Twins a s rs t rs' t'
      → (xs ys : List Lease) (c : Lease) (w w' : World A) → t.held ≡ xs ++ c ∷ ys
      → t'.held ≡ xs ++ c ∷ ys
      → a.deallocate c.addr c.layout t.world ≡ done (tt, w)
      → a.deallocate c.addr c.layout t'.world ≡ done (tt, w')
      → Twins a s rs
          (record { held = xs ++ ys; world = w })
          rs'
          (record { held = xs ++ ys; world = w' })
  write_both :
      {rs rs' : List Answer} {t t' : Holding A}
      → Twins a s rs t rs' t'
      → (xs ys : List Lease) (c : Lease) (m m' : Memory) → t.held ≡ xs ++ c ∷ ys
      → t'.held ≡ xs ++ c ∷ ys
      → WritesIn c.addr c.layout t.world.mem m
      → WritesIn c.addr c.layout t'.world.mem m'
      → Twins a s rs
          (record { held = t.held; world = record t.world { mem = m } })
          rs'
          (record { held = t'.held; world = record t'.world { mem = m' } })

-- The block shares no byte with any of these.
abbrev pub SeparateAll : Lease → List Lease → Type 0
SeparateAll c [] = Unit {0}
SeparateAll c (d ∷ ds) = Separate c.addr c.layout d.addr d.layout × SeparateAll c ds

pub SeparateAll-middle :
    (c d : Lease) (xs ys : List Lease)
    → SeparateAll d (xs ++ c ∷ ys)
    → Separate c.addr c.layout d.addr d.layout × SeparateAll d (xs ++ ys)
SeparateAll-middle c d [] ys h = (omega (arith, h.0), h.1)
SeparateAll-middle c d (x ∷ xs) ys h =
    let (sep, rest) = SeparateAll-middle c d xs ys h.1 in (sep, (h.0, rest))

pub Covered-middle :
    (c : Lease) (xs ys : List Lease) (x : ℕ)
    → Covered (xs ++ c ∷ ys) x
    → ((c.addr ≤ x) × (x < c.addr + c.layout.size)) ⊎ Covered (xs ++ ys) x
Covered-middle c [] ys x h = h
Covered-middle c (d ∷ xs) ys x (inl i) = inr (inl i)
Covered-middle c (d ∷ xs) ys x (inr h) = elim (Covered-middle c xs ys x h) [
  | inl i ↦ inl i
  | inr j ↦ inr (inr j)
]

pub Covered-inside :
    (c : Lease) (xs ys : List Lease) (x : ℕ)
    → c.addr ≤ x
    → x < c.addr + c.layout.size
    → Covered (xs ++ c ∷ ys) x
Covered-inside c [] ys x h k = inl (h, k)
Covered-inside c (d ∷ xs) ys x h k = inr (Covered-inside c xs ys x h k)

module _ {A G : Type 0} (Ready : G → World A → Type 0) (Live : G → ℕ → Layout → Type 0) where
  -- All blocks that are held are live, and apart from each other.
  abbrev pub Allotted : G → List Lease → Type 0
  Allotted g [] = Unit {0}
  Allotted g (c ∷ cs) = Live g c.addr c.layout × SeparateAll c cs × Allotted g cs

  pub Allotted-middle :
      (g : G) (c : Lease) (xs ys : List Lease)
      → Allotted g (xs ++ c ∷ ys)
      → Live g c.addr c.layout × SeparateAll c (xs ++ ys) × Allotted g (xs ++ ys)
  Allotted-middle g c [] ys h = h
  Allotted-middle g c (d ∷ xs) ys h =
      let (live, sep, rest) = Allotted-middle g c xs ys h.2 in
      let (sep_d, sep_rest) = SeparateAll-middle c d xs ys h.1 in
      (live, (sep_d, sep), (h.0, sep_rest, rest))

  pub Allotted-keeps :
      (g g' : G) (cs : List Lease)
      → ((q : ℕ) (k : Layout) → Live g q k → Live g' q k)
      → Allotted g cs
      → Allotted g' cs
  Allotted-keeps g g' [] keeps h = tt
  Allotted-keeps g g' (c ∷ cs) keeps h =
      (keeps c.addr c.layout h.0, h.1, Allotted-keeps g g' cs keeps h.2)

  pub Allotted-others :
      (g g' : G) (c : Lease) (cs : List Lease)
      → ((q : ℕ) (k : Layout) → Live g q k → Separate c.addr c.layout q k → Live g' q k)
      → SeparateAll c cs
      → Allotted g cs
      → Allotted g' cs
  Allotted-others g g' c [] keeps sep h = tt
  Allotted-others g g' c (d ∷ cs) keeps sep h =
      (keeps d.addr d.layout h.0 sep.0, h.1, Allotted-others g g' c cs keeps sep.1 h.2)

  pub SeparateAll-new :
      (g : G) (l : Layout) (s : Slice) (cs : List Lease)
      → l.size ≤ s.len
      → ((q : ℕ) (k : Layout)
          → Live g q k
          → Separate s.addr (record { size = s.len; align = l.align }) q k)
      → Allotted g cs
      → SeparateAll (record { addr = s.addr; layout = l }) cs
  SeparateAll-new g l s [] large sep h = tt
  SeparateAll-new g l s (c ∷ cs) large sep h =
      (omega (arith, sep c.addr c.layout h.0), SeparateAll-new g l s cs large sep h.2)

  pub Free-hidden :
      (g : G) (cs : List Lease) → Allotted g cs → (x : ℕ) → Free Ready Live g x → ¬ Covered cs x
  Free-hidden g [] h x free c = c
  Free-hidden g (d ∷ cs) h x free (inl i) = omega (arith, free d.addr d.layout h.0)
  Free-hidden g (d ∷ cs) h x free (inr j) = Free-hidden g cs h.2 x free j

  pub Rest-hidden :
      (g : G) (c : Lease) (cs : List Lease)
      → SeparateAll c cs
      → Allotted g cs
      → (x : ℕ) → Rest Ready Live g c.addr c.layout x
      → ¬ Covered cs x
  Rest-hidden g c [] sep h x rest i = i
  Rest-hidden g c (d ∷ cs) sep h x rest (inl i) = omega (arith, rest d.addr d.layout h.0 sep.0)
  Rest-hidden g c (d ∷ cs) sep h x rest (inr j) = Rest-hidden g c cs sep.1 h.2 x rest j
