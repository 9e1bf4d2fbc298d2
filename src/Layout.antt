-- ===== src/Layout.antt =====
-- `core::alloc::Layout` and the error of the allocator interface, as far as the crate uses them.
use secmem_alloc.Base.{
  ℕ, ◌+◌, ◌^◌, ◌≤◌, ◌≡◌, IsPowerOfTwo, is_power_of_two, is_power_of_two-true, leb, ◌&&◌,
  if◌then◌else◌, Result, ok, err, le→leb,
}

pub record Layout : Type 0 where
  pub size : ℕ
  pub align : ℕ

-- What the type guarantees: the alignment is a power of two, and the size rounded up to it is at
-- most `isize::MAX`.
pub record IsLayout (l : Layout) : Type 0 where
  pub power : IsPowerOfTwo l.align
  pub fits : l.size + l.align ≤ 2 ^ 63

pub data AllocError : Type 0 where
  alloc_error : AllocError

-- `Layout::from_size_align`
unfoldable pub from_size_align : ℕ → ℕ → Result Layout (Unit {0})
unfolding is_power_of_two
from_size_align size align =
    if is_power_of_two align && leb (size + align) 0x8000_0000_0000_0000
    then ok (record { size = size; align = align })
    else err tt

pub from_size_align-ok : (l : Layout) → IsLayout l → from_size_align l.size l.align ≡ ok l
unfolding from_size_align
from_size_align-ok l lay =
    rw (is_power_of_two-true l.align lay.power, le→leb (l.size + l.align) (2 ^ 63) lay.fits)
