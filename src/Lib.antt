-- ===== src/Lib.antt =====
-- A model of secmem-alloc: allocators that wipe memory before they release it.
--
-- The parts. `SecStackSinglePageAlloc` (src/sec_alloc.rs) is a stack allocator over one page of
-- memory that is locked into RAM, which it gets from `Page::alloc_new_lock`
-- (src/internals/mem.rs, and unix.rs, windows.rs and miri.rs under src/internals/mem).
-- `ZeroizeAlloc` (src/zeroizing_alloc.rs) wraps any other allocator. Both wipe with `zeroize_mem`
-- (src/zeroize/mod.rs), round with the helpers of src/util.rs, and check with the macros of
-- src/macros.rs.
--
-- The files.
-- + Base: comparisons, machine integers, and commands that return a value or end in a fault.
-- + Memory: the address space as a partial map from addresses to bytes, with the pointer
--   operations of `core::ptr`; an access of an address that is not mapped is undefined behaviour.
-- + Util, Zeroize, Layout: the helpers, the zeroizers, and `core::alloc::Layout`.
-- + Page: the page, and Page/Unix, Page/Windows and Page/Miri over the calls of the system. These
--   calls are parameters, with what is documented of them as laws. Page/Source is the interface
--   that the allocator uses and that each of the three fills; Page/Platform is the choice between
--   them that src/internals/mem.rs makes.
-- + Traits: `GlobalAlloc` and `Allocator` as records of their methods, with the contract of
--   `Allocator` in Traits/Contract. SecAlloc/Refine and ZeroizingAlloc/Allocates are about that
--   contract and the two allocators, Traits/Resizer and SecAlloc/Refine/Resizer about what it says of
--   `grow` and `shrink`, and ZeroizingAlloc/OverPage about the wrapper around the allocator over a
--   page. Traits/Discreet says what it is that an allocator lets nothing out of the blocks it gets
--   back; SecAlloc/Discreet and ZeroizingAlloc/Discreet are about the two. Traits/Runs sets two runs of
--   the clients of an allocator side by side, and Traits/Secrets and ZeroizingAlloc/Secrets are about
--   what these runs have in common.
-- + SecAlloc: the allocator. SecAlloc.antt has the state, `allocate` and `drop`;
--   SecAlloc/Resize has `deallocate`, `shrink` and `grow`; SecAlloc/New has `new`. A branch or
--   the end of a long function is a definition of its own (`claim`, `rewind`, `move`,
--   `shrink_in_place`, `grow_in_place`). SecAlloc/Blocks and SecAlloc/Invariant have the list of
--   live blocks by which the code is specified, and the invariant. SecAlloc/Client has the
--   sequences of calls that clients can make, as a step relation: on live blocks, and on empty
--   blocks, which are pointers and no more. SecAlloc/Exact has the outcome of each call as a function
--   of the state, Client/After that of each step of a client, and Client/Twins sets two sequences
--   side by side. SecAlloc/Lifetime joins `new`, a use by clients, and `drop`, over any source of
--   pages. An empty layout gets a dangling pointer, as in the code; the doc comment of the allocator
--   says that it gets an error. SecAlloc/Dropped is about the end, and SecAlloc/Misuse about calls
--   that break the contract and that a debug assertion stops.
-- + ZeroizingAlloc: the wrapper over a backend that is a parameter, and the contract of `GlobalAlloc`
--   (ZeroizingAlloc/Contract). The methods that the wrapper leaves as the traits provide them are
--   parameters with the laws of Traits/Provided; ZeroizingAlloc/Realloc is about `realloc`, and
--   Traits/Moves and ZeroizingAlloc/Resize are about `grow`, `grow_zeroed` and `shrink`.
-- + CrateTests: the unit tests of src/sec_alloc.rs, over a `Box` and a `Vec` that are parameters,
--   with what is documented of them as laws (CrateTests/Boxes and CrateTests/Vecs). What capacity a
--   `Vec` asks for is a parameter too (`Sizing`): it is at least what is needed, and by how much it
--   may be more is not documented. The tests over one page need a bound on it, which is a condition
--   of its own (`IsModest`). A capacity above `isize::MAX` is a panic of the `Vec`. CrateTests/Steps
--   and CrateTests/VecCalls have a rule for each command of a test. CrateTests/Wrapper has those of
--   src/zeroizing_alloc.rs, CrateTests/WrapperVecs what a vector does in them, and CrateTests/Refusal
--   the ways in which each of them can fail. CrateTests/Zeroizers has those of src/zeroize/tests.rs.
--   CrateTests/VecWiped is about a vector over the wrapper that grows.
-- + Tests: runs on concrete inputs, and a witness for each result that has a hypothesis.
--
-- Names. A definition has the name of the function that it models. A `Cell` is a field of the state,
-- and the state of a call is the allocator and the memory (`World`).
--
-- The model is that of a build with debug assertions on a 64-bit target: an assertion that fails
-- and an overflow are a panic, a check of the wrapper that fails is an abort: `handle_alloc_error`
-- is taken to abort, as it does with std, while in a binary without std it panics unless it is told
-- otherwise. A pointer is its address; provenance is not modelled, and of the conditions on `ptr.add`
-- only that the sum does not wrap around the address space: not that the pointer stays within one
-- allocation, and not the limit of `isize::MAX` on the offset. An access outside of the mapped bytes is
-- undefined behaviour all the same. No definition runs on fuel: the loops are over the length of
-- the range that they walk.
--
-- Not modelled: that the compiler and the processor keep the writes of the zeroizers (a write that
-- is executed is taken to reach memory); that locked memory is not swapped; the reads of
-- the page size of the system, which is a constant of the system; concurrency, since the allocator
-- over a page is not `Sync`; and the tests of the wrapper as the global allocator.
pub mod Base
pub mod Memory
pub mod Util
pub mod Zeroize
pub mod Page
pub mod Layout
pub mod Traits
pub mod CrateTests
pub mod SecAlloc
pub mod ZeroizingAlloc
pub mod Tests
