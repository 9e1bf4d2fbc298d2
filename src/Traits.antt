-- ===== src/Traits.antt =====
-- The traits `GlobalAlloc` of `core` and `Allocator` of `allocator_api2`, as far as the crate implements
-- and calls them, and what their contracts speak of.
pub mod Contract
pub mod Discreet
pub mod Provided
pub mod Moves
pub mod Resizer
pub mod Runs
pub mod Holding
pub mod Secrets
use secmem_alloc.Base.{ℕ, ◌+◌, ◌≤◌, ◌<◌, ◌≡◌, ◌⊎◌, refl, ◌-◌, arith, true, some, M, done, Result}
use secmem_alloc.Memory.{Memory, World, is_mapped, fill, copy, copy_nonoverlapping}
use secmem_alloc.Memory.Ranges.{
  fill-inside, fill-outside, copy-inside, copy-outside, all_mapped-true, copy_nonoverlapping-done,
}
use secmem_alloc.Util.{Slice}
use secmem_alloc.Layout.{Layout, AllocError}

-- A null pointer is 0.
pub record GlobalAlloc (A : Type 0) : Type 0 where
  pub alloc : Layout → M (World A) ℕ
  pub dealloc : ℕ → Layout → M (World A) (Unit {0})
  pub alloc_zeroed : Layout → M (World A) ℕ

-- The methods that have no default, and `allocate_zeroed`.
pub record Allocator (A : Type 0) : Type 0 where
  pub allocate : Layout → M (World A) (Result Slice AllocError)
  pub allocate_zeroed : Layout → M (World A) (Result Slice AllocError)
  pub deallocate : ℕ → Layout → M (World A) (Unit {0})

-- Two blocks that share no byte.
abbrev pub Apart : ℕ → Layout → ℕ → Layout → Type 0
Apart p l q k = (p + l.size ≤ q) ⊎ (q + k.size ≤ p)

abbrev pub SameBytes : ℕ → Layout → Memory → Memory → Type 0
SameBytes p l before after = (a : ℕ) → p ≤ a → a < p + l.size → after a ≡ before a

-- All bytes of the block are 0, if there is one.
abbrev pub Zeros : ℕ → Layout → Memory → Type 0
Zeros p l m = 0 < p → (a : ℕ) → p ≤ a → a < p + l.size → m a ≡ some 0

-- The owner of a block has written to it only, and has unmapped nothing.
pub record WritesIn (p : ℕ) (l : Layout) (before after : Memory) : Type 0 where
  pub elsewhere : (a : ℕ) → (a < p) ⊎ (p + l.size ≤ a) → after a ≡ before a
  pub still_mapped : (a : ℕ) → p ≤ a → a < p + l.size → is_mapped (after a) ≡ true

-- To wipe a block is to write in it.
pub WritesIn-fill : (m : Memory) (p : ℕ) (l : Layout) → WritesIn p l m (fill m p 0 l.size)
WritesIn-fill m p l = record {
  elsewhere = fill-outside m p 0 l.size;
  still_mapped = λ a h k. rw (fill-inside m p 0 l.size a h k) refl;
}

-- So is to copy bytes into it.
pub WritesIn-copy :
    (m : Memory) (src dst len : ℕ) (l : Layout)
    → len ≤ l.size
    → ((a : ℕ) → src ≤ a → a < src + len → is_mapped (m a) ≡ true)
    → ((a : ℕ) → dst ≤ a → a < dst + l.size → is_mapped (m a) ≡ true)
    → WritesIn dst l m (copy m src dst len)
WritesIn-copy m src dst len l fits from to = record {
  elsewhere = λ a o. copy-outside m src dst len a (omega (arith, o));
  still_mapped = λ a h k. ground (
    arith,
    copy-inside m src dst len a,
    copy-outside m src dst len a,
    from (src + (a - dst)),
    to a,
  );
}

-- The copy of mapped bytes to mapped bytes that lie apart from them.
pub copy-done :
    {A : Type 0} (src dst len : ℕ) (w : World A)
    → ((a : ℕ) → src ≤ a → a < src + len → is_mapped (w.mem a) ≡ true)
    → ((a : ℕ) → dst ≤ a → a < dst + len → is_mapped (w.mem a) ≡ true)
    → (src + len ≤ dst) ⊎ (dst + len ≤ src)
    → copy_nonoverlapping src dst len w ≡ done (tt, record w { mem = copy w.mem src dst len })
copy-done src dst len w from to apart =
    copy_nonoverlapping-done src dst len w (all_mapped-true w.mem src len from)
      (all_mapped-true w.mem dst len to) apart
