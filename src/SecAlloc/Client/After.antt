-- ===== src/SecAlloc/Client/After.antt =====
-- The client of src/sec_alloc.rs as a function: the state that each request leads to.
use secmem_alloc.Base.{
  ◌≡◌, refl, ◌∙◌, ap, ◌++◌, arith, done, done_inj, ok, Option, none, some, Outcome,
}
use secmem_alloc.Util.{Slice}
use secmem_alloc.SecAlloc.{Sec, SliceResult}
use secmem_alloc.SecAlloc.Blocks.{Blocks}
use secmem_alloc.SecAlloc.Invariant.{Inv}
use secmem_alloc.SecAlloc.Allocate.{slice}
use secmem_alloc.SecAlloc.Deallocate.{freed, deallocate-eq}
use secmem_alloc.SecAlloc.Exact.{
  after_allocate, after_shrink, after_grow, allocate-eq, shrink-eq, grow-eq,
}
use secmem_alloc.SecAlloc.Empty.{pushed, deallocate_empty, grow_from_empty, shrink_from_empty}
use secmem_alloc.SecAlloc.Client.{
  System, Request, allocate_request, deallocate_request, shrink_request, grow_request,
  deallocate_empty_request, shrink_empty_request, grow_empty_request, write_request, replace,
  finish, Step, allocates, deallocates, shrinks, grows, deallocates_empty, shrinks_empty,
  grows_empty, writes,
}
use secmem_alloc.SecAlloc.Client.Good.{at_block}

-- The slice or the error is returned, and the blocks that are alive follow from it.
abbrev pub reply : Blocks → (Slice → Blocks) → SliceResult × Sec → Option SliceResult × System
reply live new r = (some r.0, finish live new r)

-- What a request returns, and where it leads.
abbrev pub after : Request → System → Option SliceResult × System
after (allocate_request l) s = reply s.live (pushed s.live) (after_allocate l s.world)
after (deallocate_request above b below l) s =
    (none, record { live = above ++ below; world = freed s.world b })
after (shrink_request above b below old new) s =
    reply s.live (replace above b below) (after_shrink b new s.world)
after (grow_request above b below old new) s =
    reply s.live (replace above b below) (after_grow b old new s.world)
after (deallocate_empty_request p l) s = (none, s)
after (shrink_empty_request p old new) s =
    reply s.live (pushed s.live) (ok (slice new.align 0), s.world)
after (grow_empty_request p old new) s = reply s.live (pushed s.live) (after_allocate new s.world)
after (write_request above b below m) s =
    (none, record { live = s.live; world = record s.world { mem = m } })

-- What a client has asked for in a step.
abbrev pub request : {s t : System} → Step s t → Request
request (allocates l r ok' run e) = allocate_request l
request (deallocates above b below l w ok' run e) = deallocate_request above b below l
request (shrinks above b below old new r ok' run e) = shrink_request above b below old new
request (grows above b below old new r ok' run e) = grow_request above b below old new
request (deallocates_empty p l w ok' run e) = deallocate_empty_request p l
request (shrinks_empty p old new r ok' run e) = shrink_empty_request p old new
request (grows_empty p old new r ok' run e) = grow_empty_request p old new
request (writes above b below m ok' e) = write_request above b below m

-- What a call has returned, if it returns more than that it is done.
abbrev pub answer : {s t : System} → Step s t → Option SliceResult
answer (allocates l r ok' run e) = some r.0
answer (deallocates above b below l w ok' run e) = none
answer (shrinks above b below old new r ok' run e) = some r.0
answer (grows above b below old new r ok' run e) = some r.0
answer (deallocates_empty p l w ok' run e) = none
answer (shrinks_empty p old new r ok' run e) = some r.0
answer (grows_empty p old new r ok' run e) = some r.0
answer (writes above b below m ok' e) = none

-- The two for a call that returns a slice or an error.
replied :
    (live : Blocks) (new : Slice → Blocks) {t : System} {o : Outcome (SliceResult × Sec)}
    {r r' : SliceResult × Sec}
    → t ≡ finish live new r
    → o ≡ done r
    → o ≡ done r'
    → (some r.0, t) ≡ reply live new r'
replied live new {t} {o} {r} {r'} e run eq = rw e (ap (reply live new) (done_inj run eq))

-- In a state in which the invariant holds, every step of a client returns what `after` computes
-- from its request and the state, and leads to the state that `after` computes; so a request has
-- one outcome. In particular a request for an empty layout, by `allocate` or `shrink`, is not an
-- error, as the doc comment of the allocator has it, but returns a dangling pointer.
pub Step-eq-after :
    {s t : System} (st : Step s t) → Inv s.live s.world → (answer st, t) ≡ after (request st) s
Step-eq-after {s} (allocates l r ok' run e) inv =
    replied s.live (pushed s.live) e run (allocate-eq l inv ok')
Step-eq-after {s} (deallocates above b below l w ok' run e) inv =
    let ran = deallocate-eq above below b (at_block above b below inv ok'.0) l ok'.1 in
    rw e (rw (ap (λ (q : Unit {0} × Sec). q.1) (done_inj run ran)) refl)
Step-eq-after {s} (shrinks above b below old new r ok' run e) inv =
    replied s.live (replace above b below) e run
      (shrink-eq above below b (at_block above b below inv ok'.0) old new ok'.1 ok'.2 ok'.3)
Step-eq-after {s} (grows above b below old new r ok' run e) inv =
    replied s.live (replace above b below) e run
      (grow-eq above below b (at_block above b below inv ok'.0) old new ok'.1 ok'.2 ok'.3)
Step-eq-after {s} (deallocates_empty p l w ok' run e) inv =
    rw e
      (rw (ap (λ (q : Unit {0} × Sec). q.1) (done_inj run (deallocate_empty s.world p l ok'))) refl)
Step-eq-after {s} (shrinks_empty p old new r ok' run e) inv =
    replied s.live (pushed s.live) e run
      (shrink_from_empty s.world p old ok'.0 new ok'.1 (omega arith))
Step-eq-after {s} (grows_empty p old new r ok' run e) inv =
    replied s.live (pushed s.live) e run
      (grow_from_empty s.world p old ok'.0 new ∙ allocate-eq new inv ok'.1)
Step-eq-after (writes above b below m ok' e) inv = rw e refl
