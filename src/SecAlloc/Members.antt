-- ===== src/SecAlloc/Members.antt =====
-- Single blocks of the list of live blocks of src/sec_alloc.rs.
use secmem_alloc.Base.{◌≡◌, ◌⊎◌, inl, inr, refl, sym, ap, [], ◌∷◌, ◌++◌, ℕ, ◌≤◌, ◌<◌, ◌+◌}
use secmem_alloc.SecAlloc.Blocks.{Block, Blocks, Outside}

abbrev pub IsIn : Block → Blocks → Type 0
IsIn b [] = ⊥
IsIn b (c ∷ cs) = (b ≡ c) ⊎ IsIn b cs

-- A member stands between those above it and those below.
pub IsIn-split :
    (b : Block) (bs : Blocks) → IsIn b bs → (xs : Blocks) × (ys : Blocks) × (bs ≡ xs ++ b ∷ ys)
IsIn-split b [] i = elim i [ ]
IsIn-split b (c ∷ cs) (inl e) = ([], cs, ap (λ x. x ∷ cs) (sym e))
IsIn-split b (c ∷ cs) (inr i) =
    let (xs, ys, e) = IsIn-split b cs i in (c ∷ xs, ys, ap (λ r. c ∷ r) e)

pub IsIn-middle : (b : Block) (xs ys : Blocks) → IsIn b (xs ++ b ∷ ys)
IsIn-middle b [] ys = inl refl
IsIn-middle b (x ∷ xs) ys = inr (IsIn-middle b xs ys)

pub IsIn-insert : (c b : Block) (xs ys : Blocks) → IsIn c (xs ++ ys) → IsIn c (xs ++ b ∷ ys)
IsIn-insert c b [] ys i = inr i
IsIn-insert c b (x ∷ xs) ys (inl e) = inl e
IsIn-insert c b (x ∷ xs) ys (inr i) = inr (IsIn-insert c b xs ys i)

-- Any other member is left when one is taken out.
pub IsIn-remove :
    (c b : Block) (xs ys : Blocks) → IsIn c (xs ++ b ∷ ys) → (c ≡ b) ⊎ IsIn c (xs ++ ys)
IsIn-remove c b [] ys (inl e) = inl e
IsIn-remove c b [] ys (inr i) = inr i
IsIn-remove c b (x ∷ xs) ys (inl e) = inr (inl e)
IsIn-remove c b (x ∷ xs) ys (inr i) = elim (IsIn-remove c b xs ys i) [
  | inl e ↦ inl e
  | inr j ↦ inr (inr j)
]

pub Outside-IsIn :
    (a : ℕ) (b : Block) (bs : Blocks)
    → Outside a bs
    → IsIn b bs
    → (a < b.addr) ⊎ (b.addr + b.size ≤ a)
Outside-IsIn a b [] o i = elim i [ ]
Outside-IsIn a b (c ∷ cs) o (inl e) = rw e o.0
Outside-IsIn a b (c ∷ cs) o (inr i) = Outside-IsIn a b cs o.1 i
