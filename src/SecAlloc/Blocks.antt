-- ===== src/SecAlloc/Blocks.antt =====
-- The allocations that are alive, as a list from the top of the page down. The code keeps no such
-- list: it is the abstract state that src/sec_alloc.rs is specified by.
use native.Mathlib.Decide.{dec_lt}
use secmem_alloc.Base.{ℕ, ◌+◌, ◌%◌, ◌≤◌, ◌<◌, ◌≡◌, ◌⊎◌, inl, inr, refl, List, [], ◌∷◌, ◌++◌, arith}

pub record Block : Type 0 where
  pub addr : ℕ
  pub size : ℕ

abbrev pub Blocks : Type 0
Blocks = List Block

abbrev pub total : Blocks → ℕ
total [] = 0
total (b ∷ bs) = b.size + total bs

-- A block is not empty, and starts and ends at a multiple of 8.
abbrev pub IsBlock : Block → Type 0
IsBlock b = (b.addr % 8 ≡ 0) × (b.size % 8 ≡ 0) × (0 < b.size)

-- The blocks lie between `base` and `top`, each wholly below the one before it.
abbrev pub Stacked : ℕ → ℕ → Blocks → Type 0
Stacked base top [] = base ≤ top
Stacked base top (b ∷ bs) = (b.addr + b.size ≤ top) × IsBlock b × Stacked base b.addr bs

abbrev pub Inside : ℕ → Block → Type 0
Inside a b = (b.addr ≤ a) × (a < b.addr + b.size)

pub Inside-or_outside : (a : ℕ) (b : Block) → Inside a b ⊎ ((a < b.addr) ⊎ (b.addr + b.size ≤ a))
Inside-or_outside a b = elim (dec_lt a b.addr) [
  | yes below ↦ inr (inl below)
  | no above ↦ elim (dec_lt a (b.addr + b.size)) [
    | yes inside ↦ inl (omega arith, inside)
    | no beyond ↦ inr (inr (omega arith))
  ]
]

pub not-Inside : (a : ℕ) (b : Block) → ¬ Inside a b → (a < b.addr) ⊎ (b.addr + b.size ≤ a)
not-Inside a b h = elim (Inside-or_outside a b) [ inl i ↦ absurd (h i) | inr o ↦ o ]

-- The address is in no block.
abbrev pub Outside : ℕ → Blocks → Type 0
Outside a [] = Unit {0}
Outside a (b ∷ bs) = ((a < b.addr) ⊎ (b.addr + b.size ≤ a)) × Outside a bs

pub Stacked-raise :
    (base top top' : ℕ) (bs : Blocks) → top ≤ top' → Stacked base top bs → Stacked base top' bs
Stacked-raise base top top' [] le h = omega arith
Stacked-raise base top top' (b ∷ bs) le h = (omega arith, h.1, h.2)

pub base-le-top : (base top : ℕ) (bs : Blocks) → Stacked base top bs → base ≤ top
base-le-top base top [] h = h
base-le-top base top (b ∷ bs) h = omega (arith, base-le-top base b.addr bs h.2)

pub total-le : (base top : ℕ) (bs : Blocks) → Stacked base top bs → base + total bs ≤ top
total-le base top [] h = omega arith
total-le base top (b ∷ bs) h = omega (arith, total-le base b.addr bs h.2)

pub total-mod : (base top : ℕ) (bs : Blocks) → Stacked base top bs → total bs % 8 ≡ 0
total-mod base top [] h = omega arith
total-mod base top (b ∷ bs) h = omega (arith, total-mod base b.addr bs h.2)

pub eq-nil_of_total : (base top : ℕ) (bs : Blocks) → Stacked base top bs → total bs ≡ 0 → bs ≡ []
eq-nil_of_total base top [] h e = refl
eq-nil_of_total base top (b ∷ bs) h e = absurd (omega arith)

-- With no byte in use the top may go down to the base.
pub Stacked-base :
    (base top : ℕ) (bs : Blocks) → Stacked base top bs → total bs ≡ 0 → Stacked base base bs
Stacked-base base top [] h e = omega arith
Stacked-base base top (b ∷ bs) h e = absurd (omega arith)

-- Blocks below `top` do not reach it.
pub Outside-above : (base top a : ℕ) (bs : Blocks) → Stacked base top bs → top ≤ a → Outside a bs
Outside-above base top a [] h le = tt
Outside-above base top a (b ∷ bs) h le =
    (inr (omega arith), Outside-above base b.addr a bs h.2 (omega arith))

-- One block `b` of the list, with `xs` above it and `ys` below.
module _ (base : ℕ) (b : Block) (ys : Blocks) where
  pub total-middle : (xs : Blocks) → total (xs ++ b ∷ ys) ≡ b.size + total (xs ++ ys)
  total-middle [] = refl
  total-middle (x ∷ xs) = omega (arith, total-middle xs)

  pub Stacked-remove :
      (top : ℕ) (xs : Blocks) → Stacked base top (xs ++ b ∷ ys) → Stacked base top (xs ++ ys)
  Stacked-remove top [] h = Stacked-raise base b.addr top ys (omega arith) h.2
  Stacked-remove top (x ∷ xs) h = (h.0, h.1, Stacked-remove x.addr xs h.2)

  -- The block itself: in the page, well formed, and with room for what is below.
  pub Stacked-middle :
      (top : ℕ) (xs : Blocks)
      → Stacked base top (xs ++ b ∷ ys)
      → (base ≤ b.addr) × (b.addr + b.size ≤ top) × IsBlock b
  Stacked-middle top [] h = (base-le-top base b.addr ys h.2, h.0, h.1)
  Stacked-middle top (x ∷ xs) h =
      let rest = Stacked-middle x.addr xs h.2 in (rest.0, omega arith, rest.2)

  -- The block that ends at the top is the first.
  pub last_is_first :
      (top : ℕ) (xs : Blocks) → Stacked base top (xs ++ b ∷ ys) → top ≤ b.addr + b.size → xs ≡ []
  last_is_first top [] h e = refl
  last_is_first top (x ∷ xs) h e = absurd (omega (arith, Stacked-middle x.addr xs h.2))

  -- So it can be taken off the top.
  pub Stacked-pop :
      (top : ℕ) (xs : Blocks)
      → Stacked base top (xs ++ b ∷ ys)
      → top ≤ b.addr + b.size
      → Stacked base b.addr (xs ++ ys)
  Stacked-pop top [] h e = h.2
  Stacked-pop top (x ∷ xs) h e = absurd (omega (arith, Stacked-middle x.addr xs h.2))

  -- Any other size that is not larger keeps the order.
  pub Stacked-resize :
      (top size : ℕ) (xs : Blocks)
      → Stacked base top (xs ++ b ∷ ys)
      → size ≤ b.size
      → size % 8 ≡ 0
      → 0 < size
      → Stacked base top (xs ++ record b { size = size } ∷ ys)
  Stacked-resize top size [] h le m pos = (omega arith, (h.1.0, m, pos), h.2)
  Stacked-resize top size (x ∷ xs) h le m pos =
      (h.0, h.1, Stacked-resize x.addr size xs h.2 le m pos)

  -- The last block may take any size, and the top with it.
  pub Stacked-resize_last :
      (top size : ℕ) (xs : Blocks)
      → Stacked base top (xs ++ b ∷ ys)
      → top ≤ b.addr + b.size
      → size % 8 ≡ 0
      → 0 < size
      → Stacked base (b.addr + size) (xs ++ record b { size = size } ∷ ys)
  Stacked-resize_last top size [] h e m pos = (omega arith, (h.1.0, m, pos), h.2)
  Stacked-resize_last top size (x ∷ xs) h e m pos =
      absurd (omega (arith, Stacked-middle x.addr xs h.2))

  -- An address inside the block is in no other.
  pub Outside-others :
      (top a : ℕ) (xs : Blocks)
      → Stacked base top (xs ++ b ∷ ys)
      → Inside a b
      → Outside a (xs ++ ys)
  Outside-others top a [] h i = Outside-above base b.addr a ys h.2 i.0
  Outside-others top a (x ∷ xs) h i =
      (inl (omega (arith, Stacked-middle x.addr xs h.2)), Outside-others x.addr a xs h.2 i)

  pub Outside-middle :
      (a : ℕ) (xs : Blocks)
      → (a < b.addr) ⊎ (b.addr + b.size ≤ a)
      → Outside a (xs ++ ys)
      → Outside a (xs ++ b ∷ ys)
  Outside-middle a [] d h = (d, h)
  Outside-middle a (x ∷ xs) d h = (h.0, Outside-middle a xs d h.1)

  pub Outside-middle_inv :
      (a : ℕ) (xs : Blocks)
      → Outside a (xs ++ b ∷ ys)
      → ((a < b.addr) ⊎ (b.addr + b.size ≤ a)) × Outside a (xs ++ ys)
  Outside-middle_inv a [] h = h
  Outside-middle_inv a (x ∷ xs) h =
      let rest = Outside-middle_inv a xs h.1 in (rest.0, (h.0, rest.1))
