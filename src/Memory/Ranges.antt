-- ===== src/Memory/Ranges.antt =====
-- What the memory operations do at each address, and when they are defined.
use secmem_alloc.Base.{
  ℕ, zero, suc, ◌+◌, ◌-◌, ◌≤◌, ◌<◌, ◌≡◌, ◌⊎◌, refl, true, some, arith, done, usize_mod, lt→ltb,
}
use secmem_alloc.Memory.{
  Memory, World, is_mapped, all_mapped, fill, copy, ptr_add, new_unchecked, read, write_bytes,
  copy_nonoverlapping,
}

pub all_mapped-true :
    (m : Memory) (p len : ℕ)
    → ((a : ℕ) → p ≤ a → a < p + len → is_mapped (m a) ≡ true)
    → all_mapped m p len ≡ true
all_mapped-true m p zero h = refl
all_mapped-true m p (suc len) h =
    ground (arith, h p, all_mapped-true m (p + 1) len (λ a q r. h a (omega arith) (omega arith)))

pub fill-inside : (m : Memory) (p v len a : ℕ) → p ≤ a → a < p + len → fill m p v len a ≡ some v
unfolding fill
fill-inside m p v len a h k = ground arith

pub fill-outside : (m : Memory) (p v len a : ℕ) → (a < p) ⊎ (p + len ≤ a) → fill m p v len a ≡ m a
unfolding fill
fill-outside m p v len a h = ground arith

pub copy-inside :
    (m : Memory) (src dst len a : ℕ)
    → dst ≤ a
    → a < dst + len
    → copy m src dst len a ≡ m (src + (a - dst))
unfolding copy
copy-inside m src dst len a h k = ground arith

pub copy-outside :
    (m : Memory) (src dst len a : ℕ) → (a < dst) ⊎ (dst + len ≤ a) → copy m src dst len a ≡ m a
unfolding copy
copy-outside m src dst len a h = ground arith

module _ {A : Type 0} where
  pub ptr_add-done : (p n : ℕ) (s : A) → p + n < usize_mod → ptr_add p n s ≡ done (p + n, s)
  unfolding ptr_add
  ptr_add-done p n s h = rw (lt→ltb (p + n) usize_mod h)

  pub new_unchecked-done : (p : ℕ) (s : A) → 0 < p → new_unchecked p s ≡ done (p, s)
  unfolding new_unchecked
  new_unchecked-done p s h = ground arith

  pub write_bytes-done :
      (p v len : ℕ) (w : World A)
      → all_mapped w.mem p len ≡ true
      → write_bytes p v len w ≡ done (tt, record w { mem = fill w.mem p v len })
  unfolding write_bytes
  write_bytes-done p v len w h = rw h

  pub copy_nonoverlapping-done :
      (src dst len : ℕ) (w : World A)
      → all_mapped w.mem src len ≡ true
      → all_mapped w.mem dst len ≡ true
      → (src + len ≤ dst) ⊎ (dst + len ≤ src)
      → copy_nonoverlapping src dst len w ≡ done (tt, record w { mem = copy w.mem src dst len })
  unfolding copy_nonoverlapping
  copy_nonoverlapping-done src dst len w h k d = ground arith

  pub read-done : (p v : ℕ) (w : World A) → w.mem p ≡ some v → read p w ≡ done (v, w)
  unfolding read
  read-done p v w h = rw (h, read)
