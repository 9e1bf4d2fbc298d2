-- ===== src/SecAlloc/Client/Safety.antt =====
-- What holds in every state that clients of the allocator of src/sec_alloc.rs can reach.
use mathlib.Core.Path.{subst}
use secmem_alloc.Base.{
  ◌∙◌, ℕ, ◌≡◌, ◌≢◌, ◌⊎◌, inl, inr, refl, sym, ap, some, [], ◌∷◌, arith, Outcome, done_inj, done, ok,
  err, fault, abort, panic,
}
use secmem_alloc.Layout.{Layout, alloc_error}
use secmem_alloc.SecAlloc.{Sec, SliceResult, allocate, consistency_check, drop, drop_no_std}
use secmem_alloc.SecAlloc.Resize.{deallocate, shrink, grow}
use secmem_alloc.SecAlloc.Blocks.{Block, Blocks, Outside}
use secmem_alloc.SecAlloc.Invariant.{Inv, InPage}
use secmem_alloc.SecAlloc.Move.{Moves}
use secmem_alloc.SecAlloc.Contract.{deallocate-wipes, shrink-Moves, grow-Moves}
use secmem_alloc.SecAlloc.Dropped.{drop-done, drop_leak}
use secmem_alloc.SecAlloc.Checked.{consistency_check-done}
use native.Mathlib.Decide.{ℕ_discrete}
use secmem_alloc.SecAlloc.Contract.{shrink_empty}
use secmem_alloc.SecAlloc.Empty.{
  Issues, allocate-Issues, deallocate_empty, grow_from_empty, shrink_from_empty,
}
use secmem_alloc.SecAlloc.Client.{
  deallocates_empty, shrinks_empty, grows_empty, deallocate_empty_request, shrink_empty_request,
  grow_empty_request, System, Request, allocate_request, deallocate_request, shrink_request,
  grow_request, write_request, IsAllowed, Step, allocates, deallocates, shrinks, grows, writes,
  Reach, here, next,
}
use secmem_alloc.SecAlloc.Client.Good.{at_block, moved-Good, written-Good, issued-Good, shrunk-Good}

-- Every step of a client, a call that has returned, on an empty block too, or a write to a live
-- block, keeps the invariant between the live blocks and the state of the allocator.
pub Step-Inv : {s t : System} → Step s t → Inv s.live s.world → Inv t.live t.world
Step-Inv {s} {t} (allocates l r ok' run e) inv =
    rw e (issued-Good s.live r inv (allocate-Issues l inv ok') run)
Step-Inv {s} {t} (deallocates above b below l w ok' run e) inv =
    let (w', ran, inv', wiped, others, same) =
      deallocate-wipes above below b (at_block above b below inv ok'.0) l ok'.1 in
    rw e (rw (ap (λ (q : Unit {0} × Sec). q.1) (done_inj run ran)) inv')
Step-Inv {s} {t} (shrinks above b below old new r ok' run e) inv =
    rw e (shrunk-Good above b below old new r inv ok'.0 ok'.1 ok'.2 ok'.3 run)
Step-Inv {s} {t} (grows above b below old new r ok' run e) inv = rw e (
    moved-Good above b below r inv ok'.0 (omega arith)
      (grow-Moves above below b (at_block above b below inv ok'.0) old new ok'.1 ok'.2 ok'.3) run)
Step-Inv {s} {t} (deallocates_empty p l w ok' run e) inv =
    rw e
      (rw (ap (λ (q : Unit {0} × Sec). q.1) (done_inj run (deallocate_empty s.world p l ok'))) inv)
Step-Inv {s} {t} (shrinks_empty p old new r ok' run e) inv =
    rw e (rw (done_inj run (shrink_from_empty s.world p old ok'.0 new ok'.1 (omega arith))) inv)
Step-Inv {s} {t} (grows_empty p old new r ok' run e) inv = rw e (
    issued-Good s.live r inv (allocate-Issues new inv ok'.1)
      (sym (grow_from_empty s.world p old ok'.0 new) ∙ run))
Step-Inv {s} {t} (writes above b below m ok' e) inv = rw e (
    subst (λ l. Inv l (record s.world { mem = m })) (sym ok'.0)
      (written-Good above b below (at_block above b below inv ok'.0) ok'.1 ok'.2))

pub Reach-Inv : {s t : System} → Inv s.live s.world → Reach s t → Inv t.live t.world
Reach-Inv inv here = inv
Reach-Inv inv (next r st) = Step-Inv st (Reach-Inv inv r)

-- The call that a request makes returns: it neither panics nor aborts, and touches no memory that
-- it must not.
abbrev pub Returns : System → Request → Type 0
Returns s (allocate_request l) = (r : SliceResult × Sec) × (allocate l s.world ≡ done r)
Returns s (deallocate_request above b below l) =
    (w : Sec) × (deallocate b.addr l s.world ≡ done (tt, w))
Returns s (shrink_request above b below old new) =
    (r : SliceResult × Sec) × (shrink b.addr old new s.world ≡ done r)
Returns s (grow_request above b below old new) =
    (r : SliceResult × Sec) × (grow b.addr old new s.world ≡ done r)
Returns s (deallocate_empty_request p l) = (w : Sec) × (deallocate p l s.world ≡ done (tt, w))
Returns s (shrink_empty_request p old new) =
    (r : SliceResult × Sec) × (shrink p old new s.world ≡ done r)
Returns s (grow_empty_request p old new) =
    (r : SliceResult × Sec) × (grow p old new s.world ≡ done r)
Returns s (write_request above b below m) = Unit {0}

Moves-returns :
    {above below : Blocks} {b : Block} {new : Layout} {kept : ℕ} {w : Sec}
    {o : Outcome (SliceResult × Sec)}
    → Moves above below b new kept w o
    → (r : SliceResult × Sec) × (o ≡ done r)
Moves-returns {w = w} moves = elim moves [
  | inl (s, w', ran, res) ↦ ((ok s, w'), ran)
  | inr (ran, full) ↦ ((err alloc_error, w), ran)
]

Issues-returns :
    (live : Blocks) {w : Sec} {o : Outcome (SliceResult × Sec)}
    → Issues live w o
    → (r : SliceResult × Sec) × (o ≡ done r)
Issues-returns live {w = w} issues = elim issues [
  | inl (s, w', ran, inv, mem, page) ↦ ((ok s, w'), ran)
  | inr ran ↦ ((err alloc_error, w), ran)
]

-- In a good state every allowed request returns.
returns : {s : System} → Inv s.live s.world → (q : Request) → IsAllowed s q → Returns s q
returns {s} inv (allocate_request l) allowed = Issues-returns s.live (allocate-Issues l inv allowed)
returns inv (deallocate_request above b below l) allowed =
    let (w', ran, inv', wiped, others, same) =
      deallocate-wipes above below b (at_block above b below inv allowed.0) l allowed.1 in
    (w', ran)
returns inv (shrink_request above b below old new) allowed =
    let good = at_block above b below inv allowed.0 in
    elim (ℕ_discrete new.size 0) [
      | yes z ↦ (_, shrink_empty above below b good old new allowed.1 allowed.2 z)
      | no some_size ↦
          Moves-returns
            (shrink-Moves above below b good old new allowed.1 allowed.2 allowed.3 (omega arith))
    ]
returns inv (grow_request above b below old new) allowed = Moves-returns (
    grow-Moves above below b (at_block above b below inv allowed.0) old new allowed.1 allowed.2
      allowed.3)
returns {s} inv (deallocate_empty_request p l) allowed =
    (s.world, deallocate_empty s.world p l allowed)
returns {s} inv (shrink_empty_request p old new) allowed =
    (_, shrink_from_empty s.world p old allowed.0 new allowed.1 (omega arith))
returns {s} inv (grow_empty_request p old new) allowed =
    let (r, ran) = Issues-returns s.live (allocate-Issues new inv allowed.1) in
    (r, grow_from_empty s.world p old allowed.0 new ∙ ran)
returns inv (write_request above b below m) allowed = tt

-- From a state in which the invariant holds with no block alive, and after any sequence of steps
-- of clients, the call of every request that keeps to the contract returns: no assertion fails,
-- no arithmetic overflows, and no memory is touched that is not mapped.
pub Reach-Returns :
    {w : Sec} {t : System}
    → Inv [] w
    → Reach (record { live = []; world = w }) t
    → (q : Request) → IsAllowed t q
    → Returns t q
Reach-Returns inv r q allowed = returns (Reach-Inv inv r) q allowed

-- From a state in which the invariant holds with no block alive, and after any sequence of steps
-- of clients, every byte of the page that lies in no live block is 0, and `consistency_check`
-- passes.
pub Reach-zeroed :
    {w : Sec} {t : System}
    → Inv [] w
    → Reach (record { live = []; world = w }) t
    → ((a : ℕ) → InPage t.world a → Outside a t.live → t.world.mem a ≡ some 0)
      × (consistency_check t.world ≡ done (tt, t.world))
Reach-zeroed inv r = let good = Reach-Inv inv r in (good.zeroed, consistency_check-done good)

-- From a state in which the invariant holds with no block alive, and after any sequence of steps
-- of clients: if no block is alive, `drop` returns in both builds; if one is, it aborts in the
-- build with `std` and panics in the other.
pub Reach-drop :
    {w : Sec} {t : System}
    → Inv [] w
    → Reach (record { live = []; world = w }) t
    → ((t.live ≡ [])
        × (drop t.world ≡ done (tt, t.world))
        × (drop_no_std t.world ≡ done (tt, t.world)))
      ⊎ ((t.live ≢ []) × (drop t.world ≡ fault abort) × (drop_no_std t.world ≡ fault panic))
Reach-drop {t = t} inv r = by_blocks t.live t.world (Reach-Inv inv r)
  where
    by_blocks :
        (live : Blocks) (v : Sec)
        → Inv live v
        → ((live ≡ []) × (drop v ≡ done (tt, v)) × (drop_no_std v ≡ done (tt, v)))
          ⊎ ((live ≢ []) × (drop v ≡ fault abort) × (drop_no_std v ≡ fault panic))
    by_blocks [] v good = let (std, no_std) = drop-done good in inl (refl, std, no_std)
    by_blocks (b ∷ bs) v good = let (std, no_std) = drop_leak good in inr (λ e. cc, std, no_std)
