-- ===== src/Tests/Boxed.antt =====
-- A simple `Box` and a simple `Vec`, and a unit test of src/sec_alloc.rs with them.
use secmem_alloc.Base.{
  ◌<◌, ℕ, ◌+◌, ◌^◌, ◌≡◌, sym, refl, arith, leb, le→leb, lt→leb, ◌==◌, if◌then◌else◌, M, ◌>>=◌, ◌>>◌,
  pure, throw, abort, panic, Result, ok, err, eq→==, pos→==,
}
use secmem_alloc.Memory.{World, write_bytes, fill}
use secmem_alloc.Memory.Ranges.{all_mapped-true, write_bytes-done, fill-inside, fill-outside}
use secmem_alloc.Util.{Slice}
use secmem_alloc.Layout.{AllocError}
use secmem_alloc.Traits.{Allocator}
use secmem_alloc.CrateTests.Vecs.{Bytes, Methods, VecApi, Sizing, IsVecApi, IsModest, Takes, array}
use secmem_alloc.CrateTests.Boxes.{Value, Boxed, BoxApi, IsBoxApi}

module _ {A : Type 0} (allocator : Allocator A) where
  -- The bytes of the value are taken to be equal to its elements.
  unfoldable pub place : Value → Result Slice AllocError → M (World A) Boxed
  place v (ok s) = do
    write_bytes s.addr v.element v.layout.size
    pure (record { ptr = s.addr; layout = v.layout })
  place v (err e) = throw abort

  unfoldable pub boxes : BoxApi A
  boxes = record {
    new_in = λ v.
        if v.layout.size == 0
        then pure (record { ptr = v.layout.align; layout = v.layout })
        else (allocator.allocate v.layout >>= place v);
    drop = λ b. if b.layout.size == 0 then pure tt else allocator.deallocate b.ptr b.layout;
  }

  pub boxes-IsBoxApi : IsBoxApi allocator boxes
  unfolding boxes place
  boxes-IsBoxApi = record {
    places_nothing = λ w v e. (v.layout.align, rw (eq→== v.layout.size 0 e) refl);
    places = λ w w' v s pos ran writable. (
      fill w'.mem s.addr v.element v.layout.size,
      rw
          (
            pos→== v.layout.size pos,
            ran,
            write_bytes-done s.addr v.element v.layout.size w'
                (all_mapped-true w'.mem s.addr v.layout.size writable),
          )
          refl,
      record {
        elsewhere = fill-outside w'.mem s.addr v.element v.layout.size;
        still_mapped = λ a h k. rw (fill-inside w'.mem s.addr v.element v.layout.size a h k) refl;
      },
    );
    refused = λ w w' v pos ran. rw (pos→== v.layout.size pos, ran) refl;
    gives_back = λ w b pos. rw (pos→== b.layout.size pos) refl;
    gives_nothing_back = λ w b e. rw (eq→== b.layout.size 0 e) refl;
  }

-- A simple `Vec<u8>`, which never asks for more than it needs.
abbrev pub exact : Sizing
exact = record { first = λ n. n; larger = λ v n. v.len + n }

pub exact-IsModest : IsModest exact
exact-IsModest = record { first_le = λ n. omega arith; larger_le = λ v n. omega arith }

module _ {A : Type 0} (methods : Methods A) where
  unfoldable pub made : ℕ → ℕ → Result Slice AllocError → M (World A) Bytes
  made size len (ok s) = pure (record { ptr = s.addr; cap = size; len = len })
  made size len (err e) = throw abort

  -- The call is made only for a size that a layout can have.
  unfoldable pub sized : ℕ → ℕ → M (World A) (Result Slice AllocError) → M (World A) Bytes
  sized size len call = if leb (2 ^ 63) size then throw panic else (call >>= made size len)

  unfoldable pub vecs : VecApi A
  vecs = record {
    with_capacity_in = λ n. sized n 0 (methods.allocate (array n));
    reserve = λ v n.
        if leb (v.len + n) v.cap
        then pure v
        else sized (v.len + n) v.len (methods.grow v.ptr (array v.cap) (array (v.len + n)));
    push = λ v x. write_bytes (v.ptr + v.len) x 1 >> pure (record v { len = v.len + 1 });
    shrink_to_fit = λ v.
        if leb v.cap v.len
        then pure v
        else sized v.len v.len (methods.shrink v.ptr (array v.cap) (array v.len));
    drop = λ v. methods.deallocate v.ptr (array v.cap);
  }

  sized-Takes :
      (size len : ℕ) (call : M (World A) (Result Slice AllocError)) (w : World A)
      → Takes size len call (sized size len call) w
  unfolding sized made
  sized-Takes size len call w = record {
    returns = λ s w' ran lay large. (
      record { ptr = s.addr; cap = size; len = len },
      rw (lt→leb (2 ^ 63) size (omega (arith, lay.fits)), ran) refl,
      (refl, omega arith, large, lay),
      refl,
    );
    aborts = λ e w' ran lay. rw (lt→leb (2 ^ 63) size (omega (arith, lay.fits)), ran) refl;
    panics = λ over. rw (le→leb (2 ^ 63) size over) refl;
  }

  reserve-Takes :
      (w : World A) (v : Bytes) (n : ℕ)
      → v.cap < v.len + n
      → Takes
          (v.len + n)
          v.len
          (methods.grow v.ptr (array v.cap) (array (v.len + n)))
          (vecs.reserve v n)
          w
  unfolding vecs
  reserve-Takes w v n short =
      rw (lt→leb (v.len + n) v.cap short)
        (sized-Takes (v.len + n) v.len (methods.grow v.ptr (array v.cap) (array (v.len + n))) w)

  shrink_to_fit-Takes :
      (w : World A) (v : Bytes)
      → v.len < v.cap
      → Takes v.len v.len
          (methods.shrink v.ptr (array v.cap) (array v.len))
          (vecs.shrink_to_fit v)
          w
  unfolding vecs
  shrink_to_fit-Takes w v short =
      rw (lt→leb v.cap v.len short)
        (sized-Takes v.len v.len (methods.shrink v.ptr (array v.cap) (array v.len)) w)

  pub vecs-IsVecApi : IsVecApi methods exact vecs
  unfolding vecs
  vecs-IsVecApi = record {
    makes_enough = λ n. omega arith;
    makes = λ w n pos. sized-Takes n 0 (methods.allocate (array n)) w;
    keeps_capacity = λ w v n enough. rw (le→leb (v.len + n) v.cap enough) refl;
    reserves_enough = λ v n short. omega arith;
    reserves = λ w v n pos short. reserve-Takes w v n short;
    pushes = λ w v x short mapped.
        rw
          (write_bytes-done (v.ptr + v.len) x 1 w (
            all_mapped-true w.mem (v.ptr + v.len) 1
              (λ a h k. let same : v.ptr + v.len ≡ a = omega arith in rw (sym same) mapped)))
          refl;
    keeps_fit = λ w v full. rw (le→leb v.cap v.len (omega arith)) refl;
    shrinks = λ w v pos short. shrink_to_fit-Takes w v short;
    gives_back = λ w v pos. refl;
  }
