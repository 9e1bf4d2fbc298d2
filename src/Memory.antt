-- ===== src/Memory.antt =====
-- The memory that the crate reads and writes through raw pointers: the address space as a partial
-- map from addresses to bytes, and the pointer operations of `core::ptr` that the source uses.
-- A pointer is its address; its provenance is not modelled. An access of an address that is not
-- mapped is undefined behaviour.
pub mod Ranges
use secmem_alloc.Base.{
  ℕ, zero, suc, ◌+◌, ◌-◌, Bool, true, false, ◌&&◌, ◌||◌, Option, none, some, ltb, leb, ◌==◌,
  if◌then◌else◌, M, ◌>>=◌, ◌>>◌, pure, throw, gets, done, fault, undefined_behaviour, usize_mod,
}

abbrev pub Memory : Type 0
Memory = ℕ → Option ℕ

-- The state of a call: the allocator that it is made on, and the memory.
pub record World (A : Type 0) : Type 0 where
  pub alloc : A
  pub mem : Memory

abbrev pub in_range : ℕ → ℕ → ℕ → Bool
in_range p len a = leb p a && ltb a (p + len)

abbrev pub is_mapped : Option ℕ → Bool
is_mapped none = false
is_mapped (some v) = true

-- Every address from `p` up to `p + len` is mapped.
abbrev pub all_mapped : Memory → ℕ → ℕ → Bool
all_mapped m p zero = true
all_mapped m p (suc len) = is_mapped (m p) && all_mapped m (p + 1) len

unfoldable pub fill : Memory → ℕ → ℕ → ℕ → Memory
fill m p v len a = if in_range p len a then some v else m a

unfoldable pub copy : Memory → ℕ → ℕ → ℕ → Memory
copy m src dst len a = if in_range dst len a then m (src + (a - dst)) else m a

module _ {A : Type 0} where
  -- `ptr.add(n)` for a pointer to bytes
  unfoldable pub ptr_add : ℕ → ℕ → M A ℕ
  ptr_add p n = if ltb (p + n) usize_mod then pure (p + n) else throw undefined_behaviour

  -- `NonNull::new_unchecked`
  unfoldable pub new_unchecked : ℕ → M A ℕ
  new_unchecked p = if p == 0 then throw undefined_behaviour else pure p

module _ {A : Type 0} where
  -- `ptr.read()`
  unfoldable pub read : ℕ → M (World A) ℕ
  read p w = elim (w.mem p) [ none ↦ fault undefined_behaviour | some v ↦ done (v, w) ]

  -- `write_volatile`
  unfoldable pub write_volatile : ℕ → ℕ → M (World A) (Unit {0})
  write_volatile p v w =
      if is_mapped (w.mem p)
      then done (tt, record w { mem = fill w.mem p v 1 })
      else fault undefined_behaviour

  -- `ptr.write_bytes(v, len)`
  unfoldable pub write_bytes : ℕ → ℕ → ℕ → M (World A) (Unit {0})
  write_bytes p v len w =
      if all_mapped w.mem p len
      then done (tt, record w { mem = fill w.mem p v len })
      else fault undefined_behaviour

  -- `copy_nonoverlapping(src, dst, len)`
  unfoldable pub copy_nonoverlapping : ℕ → ℕ → ℕ → M (World A) (Unit {0})
  copy_nonoverlapping src dst len w =
      if all_mapped w.mem src len
        && all_mapped w.mem dst len
        && (leb (src + len) dst || leb (dst + len) src)
      then done (tt, record w { mem = copy w.mem src dst len })
      else fault undefined_behaviour
