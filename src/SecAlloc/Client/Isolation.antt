-- ===== src/SecAlloc/Client/Isolation.antt =====
-- What clients of the allocator of src/sec_alloc.rs leave alone: the memory outside of its page.
use mathlib.Core.Path.{subst}
use secmem_alloc.Base.{
  ℕ, ◌+◌, ◌≤◌, ◌<◌, ◌≡◌, inl, inr, refl, ◌∙◌, sym, ap, [], ◌∷◌, ◌++◌, arith, Outcome, done_inj,
  done,
}
use secmem_alloc.Memory.{Memory}
use secmem_alloc.Util.{Slice}
use secmem_alloc.Page.{Page}
use secmem_alloc.Layout.{Layout}
use secmem_alloc.SecAlloc.{Sec, SliceResult}
use secmem_alloc.SecAlloc.Blocks.{Block, Blocks, Inside}
use secmem_alloc.SecAlloc.Invariant.{Inv, InPage}
use secmem_alloc.SecAlloc.Deallocate.{IsBlock-bounds}
use secmem_alloc.SecAlloc.Fresh.{block}
use secmem_alloc.SecAlloc.Resized.{IsResized}
use secmem_alloc.SecAlloc.Move.{Moves}
use secmem_alloc.SecAlloc.Contract.{shrink-Moves, grow-Moves}
use native.Mathlib.Decide.{ℕ_discrete}
use secmem_alloc.Memory.Ranges.{fill-outside}
use secmem_alloc.SecAlloc.Blocks.{not-Inside}
use secmem_alloc.SecAlloc.Deallocate.{freed, deallocate-eq}
use secmem_alloc.SecAlloc.Contract.{shrink_empty}
use secmem_alloc.SecAlloc.Empty.{
  Issues, allocate-Issues, deallocate_empty, grow_from_empty, shrink_from_empty,
}
use secmem_alloc.SecAlloc.Client.{
  deallocates_empty, shrinks_empty, grows_empty, System, replace, finish, Step, allocates,
  deallocates, shrinks, grows, writes, Reach, here, next,
}
use secmem_alloc.SecAlloc.Client.Good.{at_block}
use secmem_alloc.SecAlloc.Client.Safety.{Reach-Inv}

-- The page is the same, and no byte outside of it has changed.
abbrev pub SameOutside : Sec → Sec → Type 0
SameOutside w w' = (w'.alloc.page ≡ w.alloc.page) × ((a : ℕ) → ¬ InPage w a → w'.mem a ≡ w.mem a)

same : (w : Sec) → SameOutside w w
same w = (refl, λ a o. refl)

-- A live block lies in the page.
Inside-InPage :
    (above : Blocks) (b : Block) (below : Blocks) {w : Sec}
    → Inv (above ++ b ∷ below) w
    → (a : ℕ) → Inside a b
    → InPage w a
Inside-InPage above b below inv a i =
    omega (arith, IsBlock-bounds above below b inv, inv.offset_in_page)

IsResized-SameOutside :
    (above : Blocks) (b : Block) (below : Blocks) {new : Layout} {kept : ℕ} {w w' : Sec} {s : Slice}
    → Inv (above ++ b ∷ below) w
    → IsResized above below b new kept w s w'
    → SameOutside w w'
IsResized-SameOutside above b below {w = w} {w'} {s} inv r = (
  r.same_page,
  λ a o. r.others a (λ i. o (Inside-InPage above b below inv a i)) (λ i. o (in_page a i)),
)
  where
    in_page : (a : ℕ) → Inside a (block s) → InPage w a
    in_page a i = elim r.placed [
      | inl (at, inv') ↦
          subst (λ (q : Page). (q.page_ptr ≤ a) × (a < q.page_ptr + q.page_size)) r.same_page
            (Inside-InPage above (block s) below inv' a i)
      | inr (apart, inv') ↦
          subst (λ (q : Page). (q.page_ptr ≤ a) × (a < q.page_ptr + q.page_size)) r.same_page
            (Inside-InPage [] (block s) (above ++ below) inv' a i)
    ]

Moves-SameOutside :
    (live above : Blocks) (b : Block) (below : Blocks) {new : Layout} {kept : ℕ} {w : Sec}
    {o : Outcome (SliceResult × Sec)} (r : SliceResult × Sec)
    → Inv (above ++ b ∷ below) w
    → Moves above below b new kept w o
    → o ≡ done r
    → SameOutside w (finish live (replace above b below) r).world
Moves-SameOutside live above b below {w = w} r inv moves run = elim moves [
  | inl (s, w', ran, res) ↦ rw (done_inj run ran) (IsResized-SameOutside above b below inv res)
  | inr (ran, full) ↦ rw (done_inj run ran) (same w)
]

Issues-SameOutside :
    (live : Blocks) {w : Sec} {o : Outcome (SliceResult × Sec)} (r : SliceResult × Sec)
    → Issues live w o
    → o ≡ done r
    → SameOutside w r.1
Issues-SameOutside live {w = w} r issues run = elim issues [
  | inl (s, w', ran, inv, mem, page) ↦
      rw (done_inj run ran) (page, λ a o. ap (λ (m : Memory). m a) mem)
  | inr ran ↦ rw (done_inj run ran) (same w)
]

freed-SameOutside :
    (above : Blocks) (b : Block) (below : Blocks) {w : Sec}
    → Inv (above ++ b ∷ below) w
    → SameOutside w (freed w b)
freed-SameOutside above b below {w} inv = (
  refl,
  λ a o.
      fill-outside w.mem b.addr 0 b.size a
        (not-Inside a b (λ i. o (Inside-InPage above b below inv a i))),
)

Step-SameOutside : {s t : System} → Step s t → Inv s.live s.world → SameOutside s.world t.world
Step-SameOutside {s} {t} (allocates l r ok' run e) inv =
    rw e (Issues-SameOutside s.live r (allocate-Issues l inv ok') run)
Step-SameOutside {s} {t} (deallocates above b below l w ok' run e) inv =
    let good = at_block above b below inv ok'.0 in
    rw e (
      rw
        (ap (λ (q : Unit {0} × Sec). q.1) (done_inj run (deallocate-eq above below b good l ok'.1)))
        (freed-SameOutside above b below good))
Step-SameOutside {s} {t} (shrinks above b below old new r ok' run e) inv =
    let good = at_block above b below inv ok'.0 in
    elim (ℕ_discrete new.size 0) [
      | yes z ↦ rw e (
          rw (done_inj run (shrink_empty above below b good old new ok'.1 ok'.2 z))
            (freed-SameOutside above b below good))
      | no some_size ↦ rw e (
          Moves-SameOutside s.live above b below r good
            (shrink-Moves above below b good old new ok'.1 ok'.2 ok'.3 (omega arith)) run)
    ]
Step-SameOutside {s} {t} (grows above b below old new r ok' run e) inv =
    let good = at_block above b below inv ok'.0 in
    rw e (
      Moves-SameOutside s.live above b below r good
        (grow-Moves above below b good old new ok'.1 ok'.2 ok'.3) run)
Step-SameOutside {s} {t} (deallocates_empty p l w ok' run e) inv = rw e (
    rw (ap (λ (q : Unit {0} × Sec). q.1) (done_inj run (deallocate_empty s.world p l ok')))
      (same s.world))
Step-SameOutside {s} {t} (shrinks_empty p old new r ok' run e) inv = rw e (
    rw (done_inj run (shrink_from_empty s.world p old ok'.0 new ok'.1 (omega arith)))
      (same s.world))
Step-SameOutside {s} {t} (grows_empty p old new r ok' run e) inv = rw e (
    Issues-SameOutside s.live r (allocate-Issues new inv ok'.1)
      (sym (grow_from_empty s.world p old ok'.0 new) ∙ run))
Step-SameOutside {s} {t} (writes above b below m ok' e) inv =
    let good = at_block above b below inv ok'.0 in
    rw e (refl, λ a o. ok'.1 a (λ i. o (Inside-InPage above b below good a i)))

-- From a state in which the invariant holds, and after any sequence of steps of clients, the
-- allocator still has the same page, and no byte outside of the page has changed.
pub Reach-SameOutside :
    {s t : System} → Inv s.live s.world → Reach s t → SameOutside s.world t.world
Reach-SameOutside {s} inv here = same s.world
Reach-SameOutside {s} {t} inv (next {t = u} r st) =
    let (page, outside) = Reach-SameOutside inv r in
    let (page', outside') = Step-SameOutside st (Reach-Inv inv r) in
    (
      page' ∙ page,
      λ a o.
          outside' a (
            subst (λ (q : Page). ¬ ((q.page_ptr ≤ a) × (a < q.page_ptr + q.page_size))) (sym page)
              o)
          ∙ outside a o,
    )
