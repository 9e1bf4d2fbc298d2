-- ===== src/CrateTests/Vecs.antt =====
-- `Vec<u8>` of `allocator_api2` over an allocator, as the unit tests use it.
use secmem_alloc.Base.{
  ℕ, ◌+◌, ◌*◌, ◌^◌, ◌≤◌, ◌<◌, ◌≡◌, true, M, Result, done, fault, abort, panic, ok, err,
}
use secmem_alloc.Memory.{World, is_mapped, fill}
use secmem_alloc.Util.{Slice}
use secmem_alloc.Layout.{Layout, IsLayout, AllocError}

-- The methods of an allocator that a vector calls.
pub record Methods (A : Type 0) : Type 0 where
  pub allocate : Layout → M (World A) (Result Slice AllocError)
  pub grow : ℕ → Layout → Layout → M (World A) (Result Slice AllocError)
  pub shrink : ℕ → Layout → Layout → M (World A) (Result Slice AllocError)
  pub deallocate : ℕ → Layout → M (World A) (Unit {0})

-- A vector, without its allocator.
pub record Bytes : Type 0 where
  pub ptr : ℕ
  pub cap : ℕ
  pub len : ℕ

pub record VecApi (A : Type 0) : Type 0 where
  pub with_capacity_in : ℕ → M (World A) Bytes
  pub reserve : Bytes → ℕ → M (World A) Bytes
  pub push : Bytes → ℕ → M (World A) Bytes
  pub shrink_to_fit : Bytes → M (World A) Bytes
  pub drop : Bytes → M (World A) (Unit {0})

-- `Layout::array::<u8>(n)`
abbrev pub array : ℕ → Layout
array n = record { size = n; align = 1 }

-- The vector stands on the slice, which was asked for with this capacity, and can use all of it, but
-- never more than a layout can have.
abbrev pub Over : ℕ → Slice → Bytes → Type 0
Over req s v = (v.ptr ≡ s.addr) × (req ≤ v.cap) × (v.cap ≤ s.len) × IsLayout (array v.cap)

-- A call of the vector makes this call of the allocator, for the capacity `req`, and has its block
-- then, with `len` bytes in use. An error of the allocator is an abort. No allocator is called for a
-- capacity of more than `isize::MAX` bytes, which is a panic ("capacity overflow").
pub record Takes {A : Type 0} (req len : ℕ) (call : M (World A) (Result Slice AllocError))
    (result : M (World A) Bytes) (w : World A) : Type 0 where
  pub returns :
      (s : Slice) (w' : World A)
      → call w ≡ done (ok s, w')
      → IsLayout (array req)
      → req ≤ s.len
      → (v : Bytes) × (result w ≡ done (v, w')) × Over req s v × (v.len ≡ len)
  pub aborts :
      (e : AllocError) (w' : World A)
      → call w ≡ done (err e, w')
      → IsLayout (array req)
      → result w ≡ fault abort
  pub panics : 2 ^ 63 ≤ req → result w ≡ fault panic

-- The capacity that a vector asks its allocator for: in `with_capacity_in` with this argument, and in
-- `reserve` on this vector with this argument, if it has to grow.
pub record Sizing : Type 0 where
  pub first : ℕ → ℕ
  pub larger : Bytes → ℕ → ℕ

-- What is documented, if the allocator returns slices that are large enough: the capacity is at least
-- the one that is asked for. A vector with enough of it is left where it is; otherwise its block is
-- grown. What is not in use is given up by `shrink_to_fit`, and a vector without any such is left
-- where it is. By how much a vector grows is left open.
pub record IsVecApi {A : Type 0} (methods : Methods A) (sizing : Sizing) (vec : VecApi A)
    : Type 0 where
  pub makes_enough : (n : ℕ) → n ≤ sizing.first n
  pub makes :
      (w : World A) (n : ℕ)
      → 0 < n
      → Takes
          (sizing.first n)
          0
          (methods.allocate (array (sizing.first n)))
          (vec.with_capacity_in n)
          w
  pub keeps_capacity :
      (w : World A) (v : Bytes) (n : ℕ) → v.len + n ≤ v.cap → vec.reserve v n w ≡ done (v, w)
  pub reserves_enough : (v : Bytes) (n : ℕ) → v.cap < v.len + n → v.len + n ≤ sizing.larger v n
  pub reserves :
      (w : World A) (v : Bytes) (n : ℕ)
      → 0 < v.cap
      → v.cap < v.len + n
      → Takes
          (sizing.larger v n)
          v.len
          (methods.grow v.ptr (array v.cap) (array (sizing.larger v n)))
          (vec.reserve v n)
          w
  pub pushes :
      (w : World A) (v : Bytes) (x : ℕ)
      → v.len < v.cap
      → is_mapped (w.mem (v.ptr + v.len)) ≡ true
      → vec.push v x w
        ≡ done (record v { len = v.len + 1 }, record w { mem = fill w.mem (v.ptr + v.len) x 1 })
  pub keeps_fit : (w : World A) (v : Bytes) → v.len ≡ v.cap → vec.shrink_to_fit v w ≡ done (v, w)
  pub shrinks :
      (w : World A) (v : Bytes)
      → 0 < v.len
      → v.len < v.cap
      → Takes v.len v.len (methods.shrink v.ptr (array v.cap) (array v.len)) (vec.shrink_to_fit v) w
  pub gives_back :
      (w : World A) (v : Bytes)
      → 0 < v.cap
      → vec.drop v w ≡ methods.deallocate v.ptr (array v.cap) w

-- Not documented: the capacities that are asked for are small enough for a page of 2048 bytes in the
-- unit tests of src/sec_alloc.rs, since the vector asks for little more than it needs, or than twice
-- its capacity.
pub record IsModest (sizing : Sizing) : Type 0 where
  pub first_le : (n : ℕ) → sizing.first n ≤ n + 64
  pub larger_le : (v : Bytes) (n : ℕ) → sizing.larger v n ≤ 2 * v.cap + v.len + n + 64
