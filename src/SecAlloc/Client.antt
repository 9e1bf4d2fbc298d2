-- ===== src/SecAlloc/Client.antt =====
-- Clients of the allocator of src/sec_alloc.rs: any sequence of calls that keeps to the contract of
-- the allocator interface, with writes to live memory in between.
pub mod Good
pub mod After
pub mod Twins
pub mod Safety
pub mod Isolation
pub mod Progress
use secmem_alloc.Base.{
  ℕ, ◌+◌, ◌≤◌, ◌<◌, ◌≡◌, ◌≢◌, ◌⊎◌, inl, inr, refl, ◌∙◌, sym, ap, true, some, List, [], ◌∷◌, ◌++◌,
  arith, ◌==◌, if◌then◌else◌, M, Outcome, done, ok, err, Bool-cases, eq→==, ne→==,
}
use secmem_alloc.Memory.{Memory, is_mapped}
use secmem_alloc.Util.{Slice}
use secmem_alloc.Layout.{Layout, IsLayout, alloc_error}
use secmem_alloc.SecAlloc.{Sec, SliceResult, allocate}
use secmem_alloc.SecAlloc.Resize.{deallocate, shrink, grow}
use secmem_alloc.SecAlloc.Blocks.{Block, Blocks, Inside, Inside-or_outside, Outside, Outside-others}
use secmem_alloc.SecAlloc.Invariant.{Inv, Inv-mem, InPage}
use secmem_alloc.SecAlloc.Deallocate.{Fits}
use secmem_alloc.SecAlloc.Fresh.{block, allocate-IsFresh}
use secmem_alloc.SecAlloc.Resized.{IsResized}
use secmem_alloc.SecAlloc.Move.{Moves}
use secmem_alloc.SecAlloc.Empty.{pushed}
use secmem_alloc.SecAlloc.Contract.{deallocate-wipes, shrink-Moves, grow-Moves}

-- The blocks that clients hold, and the state that the calls work on.
pub record System : Type 0 where
  pub live : Blocks
  pub world : Sec

-- What a client may ask for. A block is named by its place in the list, between `above` and `below`.
pub data Request : Type 0 where
  allocate_request : Layout → Request
  deallocate_request : (above : Blocks) (b : Block) (below : Blocks) → Layout → Request
  shrink_request : (above : Blocks) (b : Block) (below : Blocks) → Layout → Layout → Request
  grow_request : (above : Blocks) (b : Block) (below : Blocks) → Layout → Layout → Request
  -- on an empty block, which is a pointer and no more
  deallocate_empty_request : ℕ → Layout → Request
  shrink_empty_request : ℕ → Layout → Layout → Request
  grow_empty_request : ℕ → Layout → Layout → Request
  write_request : (above : Blocks) (b : Block) (below : Blocks) → Memory → Request

-- The safety contract of each call.
abbrev pub IsAllowed : System → Request → Type 0
IsAllowed s (allocate_request l) = IsLayout l
IsAllowed s (deallocate_request above b below l) = (s.live ≡ above ++ b ∷ below) × Fits l b
IsAllowed s (shrink_request above b below old new) =
    (s.live ≡ above ++ b ∷ below) × Fits old b × IsLayout new × (new.size ≤ old.size)
IsAllowed s (deallocate_empty_request p l) = l.size ≡ 0
IsAllowed s (shrink_empty_request p old new) = (old.size ≡ 0) × IsLayout new × (new.size ≤ old.size)
IsAllowed s (grow_empty_request p old new) = (old.size ≡ 0) × IsLayout new
IsAllowed s (grow_request above b below old new) =
    (s.live ≡ above ++ b ∷ below) × Fits old b × IsLayout new × (old.size ≤ new.size)
IsAllowed s (write_request above b below m) =
    (s.live ≡ above ++ b ∷ below)
    × ((a : ℕ) → ¬ Inside a b → m a ≡ s.world.mem a)
    × ((a : ℕ) → Inside a b → is_mapped (m a) ≡ true)

-- The blocks that are alive once `s` has taken the place of `b`.
abbrev pub replace : Blocks → Block → Blocks → Slice → Blocks
replace above b below s =
    if s.len == 0
    then above ++ below
    else if s.addr == b.addr
    then above ++ block s ∷ below
    else block s ∷ (above ++ below)

-- What is alive after a call that returned a slice or an error.
abbrev pub live_after : Blocks → (Slice → Blocks) → SliceResult → Blocks
live_after live new (ok s) = new s
live_after live new (err e) = live

abbrev pub finish : Blocks → (Slice → Blocks) → SliceResult × Sec → System
finish live new (r, w) = record { live = live_after live new r; world = w }

-- A step of the system: the code is run, and has returned.
pub data Step (s t : System) : Type 0 where
  allocates :
      (l : Layout) (r : SliceResult × Sec)
      → IsAllowed s (allocate_request l)
      → allocate l s.world ≡ done r
      → t ≡ finish s.live (pushed s.live) r
      → Step s t
  deallocates :
      (above : Blocks) (b : Block) (below : Blocks) (l : Layout) (w : Sec)
      → IsAllowed s (deallocate_request above b below l)
      → deallocate b.addr l s.world ≡ done (tt, w)
      → t ≡ record { live = above ++ below; world = w }
      → Step s t
  shrinks :
      (above : Blocks) (b : Block) (below : Blocks) (old new : Layout) (r : SliceResult × Sec)
      → IsAllowed s (shrink_request above b below old new)
      → shrink b.addr old new s.world ≡ done r
      → t ≡ finish s.live (replace above b below) r
      → Step s t
  grows :
      (above : Blocks) (b : Block) (below : Blocks) (old new : Layout) (r : SliceResult × Sec)
      → IsAllowed s (grow_request above b below old new)
      → grow b.addr old new s.world ≡ done r
      → t ≡ finish s.live (replace above b below) r
      → Step s t
  deallocates_empty :
      (p : ℕ) (l : Layout) (w : Sec)
      → IsAllowed s (deallocate_empty_request p l)
      → deallocate p l s.world ≡ done (tt, w)
      → t ≡ record { live = s.live; world = w }
      → Step s t
  shrinks_empty :
      (p : ℕ) (old new : Layout) (r : SliceResult × Sec)
      → IsAllowed s (shrink_empty_request p old new)
      → shrink p old new s.world ≡ done r
      → t ≡ finish s.live (pushed s.live) r
      → Step s t
  grows_empty :
      (p : ℕ) (old new : Layout) (r : SliceResult × Sec)
      → IsAllowed s (grow_empty_request p old new)
      → grow p old new s.world ≡ done r
      → t ≡ finish s.live (pushed s.live) r
      → Step s t
  writes :
      (above : Blocks) (b : Block) (below : Blocks) (m : Memory)
      → IsAllowed s (write_request above b below m)
      → t ≡ record { live = s.live; world = record s.world { mem = m } }
      → Step s t

pub data Reach (s : System) : System → Type 0 where
  here : Reach s s
  next : {t u : System} → Reach s t → Step t u → Reach s u
