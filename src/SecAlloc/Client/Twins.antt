-- ===== src/SecAlloc/Client/Twins.antt =====
-- Two clients of the allocator of src/sec_alloc.rs that make the same requests, but write other bytes to
-- their blocks: what is left of the secrets that they differ in.
use mathlib.Core.Path.{subst, subst₂}
use secmem_alloc.Page.Source.{InRange-or_not}
use secmem_alloc.Util.{Slice}
use secmem_alloc.Base.{ℕ, ◌≡◌, inl, inr, refl, ◌∙◌, sym, ap, List, [], ◌∷◌, Option, some, arith}
use secmem_alloc.Memory.{Memory}
use secmem_alloc.Layout.{Layout}
use secmem_alloc.SecAlloc.{SecStackSinglePageAlloc, Sec, SliceResult}
use secmem_alloc.SecAlloc.Blocks.{Block, Blocks, Outside}
use secmem_alloc.SecAlloc.Invariant.{Inv}
use secmem_alloc.SecAlloc.Exact.{after_allocate, moved, after_shrink, after_grow}
use secmem_alloc.SecAlloc.Empty.{pushed}
use secmem_alloc.SecAlloc.Client.{
  System, Request, allocate_request, deallocate_request, shrink_request, grow_request,
  deallocate_empty_request, shrink_empty_request, grow_empty_request, write_request, replace,
  live_after, Step, Reach, here, next,
}
use secmem_alloc.SecAlloc.Client.Safety.{Reach-Inv}
use secmem_alloc.SecAlloc.Client.Isolation.{Reach-SameOutside}
use secmem_alloc.SecAlloc.Client.After.{after, request, answer, Step-eq-after}

-- The same request, but for the bytes that are written.
pub data SameRequest : Request → Request → Type 0 where
  same_call : (q : Request) → SameRequest q q
  other_bytes :
      (above : Blocks) (b : Block) (below : Blocks) (m m' : Memory)
      → SameRequest (write_request above b below m) (write_request above b below m')

-- Two runs from the state `s`, with what the calls have returned, the last first.
pub data Twins (s : System)
    : List (Option SliceResult) → System → List (Option SliceResult) → System → Type 0 where
  begin : Twins s [] s [] s
  both :
      {rs rs' : List (Option SliceResult)} {t t' u u' : System}
      → Twins s rs t rs' t'
      → (st : Step t u) (st' : Step t' u') → SameRequest (request st) (request st')
      → Twins s (answer st ∷ rs) u (answer st' ∷ rs') u'

-- What a call lets out: its result, and the state of the allocator.
abbrev public : SliceResult × Sec → SliceResult × SecStackSinglePageAlloc
public (r, w) = (r, w.alloc)

abbrev with_memory : SecStackSinglePageAlloc → Memory → Sec
with_memory a m = record { alloc = a; mem = m }

-- It does not depend on the memory.
module _ (a : SecStackSinglePageAlloc) (m m' : Memory) where
  after_allocate-blind :
      (l : Layout)
      → public (after_allocate l (with_memory a m)) ≡ public (after_allocate l (with_memory a m'))
  after_allocate-blind l = ground arith

  moved-blind :
      (b : Block) (new : Layout) (count : ℕ)
      → public (moved b new count (with_memory a m)) ≡ public (moved b new count (with_memory a m'))
  moved-blind b new count = ground arith

  after_shrink-blind :
      (b : Block) (new : Layout)
      → public (after_shrink b new (with_memory a m))
        ≡ public (after_shrink b new (with_memory a m'))
  after_shrink-blind b new = ground (arith, moved-blind b new new.size)

  after_grow-blind :
      (b : Block) (old new : Layout)
      → public (after_grow b old new (with_memory a m))
        ≡ public (after_grow b old new (with_memory a m'))
  after_grow-blind b old new = ground (arith, moved-blind b new old.size)

-- What is public of a step: the answer, the live blocks and the state of the allocator.
abbrev view : Option SliceResult × System → Option SliceResult × Blocks × SecStackSinglePageAlloc
view (r, s) = (r, s.live, s.world.alloc)

-- The same for a call, by what the call lets out.
abbrev view_reply :
    Blocks
    → (Slice → Blocks)
    → SliceResult × SecStackSinglePageAlloc
    → Option SliceResult × Blocks × SecStackSinglePageAlloc
view_reply live new (r, a) = (some r, live_after live new r, a)

after-blind :
    (q : Request) (live : Blocks) (a : SecStackSinglePageAlloc) (m m' : Memory)
    → view (after q (record { live = live; world = with_memory a m }))
      ≡ view (after q (record { live = live; world = with_memory a m' }))
after-blind (allocate_request l) live a m m' =
    ap (view_reply live (pushed live)) (after_allocate-blind a m m' l)
after-blind (deallocate_request above b below l) live a m m' = refl
after-blind (shrink_request above b below old new) live a m m' =
    ap (view_reply live (replace above b below)) (after_shrink-blind a m m' b new)
after-blind (grow_request above b below old new) live a m m' =
    ap (view_reply live (replace above b below)) (after_grow-blind a m m' b old new)
after-blind (deallocate_empty_request p l) live a m m' = refl
after-blind (shrink_empty_request p old new) live a m m' = refl
after-blind (grow_empty_request p old new) live a m m' =
    ap (view_reply live (pushed live)) (after_allocate-blind a m m' new)
after-blind (write_request above b below n) live a m m' = refl

after-SameRequest :
    {q q' : Request} (t t' : System)
    → SameRequest q q'
    → t.live ≡ t'.live
    → t.world.alloc ≡ t'.world.alloc
    → view (after q t) ≡ view (after q' t')
after-SameRequest t t' (same_call q) same_live same_alloc =
    subst₂
      (λ (l : Blocks) (a : SecStackSinglePageAlloc).
        view (after q t) ≡ view (after q (record { live = l; world = with_memory a t'.world.mem })))
      same_live same_alloc (after-blind q t.live t.world.alloc t.world.mem t'.world.mem)
after-SameRequest t t' (other_bytes above b below m m') same_live same_alloc =
    rw (same_live, same_alloc) refl

-- No client sees a difference: the blocks are the same, so is the state of the allocator, and so
-- are all bytes that are in no live block.
pub record Indistinct (t t' : System) : Type 0 where
  pub live : t.live ≡ t'.live
  pub alloc : t.world.alloc ≡ t'.world.alloc
  pub memory : (a : ℕ) → Outside a t.live → t.world.mem a ≡ t'.world.mem a

-- What the two runs share as they go on.
record Together (s : System) (rs : List (Option SliceResult)) (t : System)
    (rs' : List (Option SliceResult)) (t' : System) : Type 0 where
  one : Reach s t
  other : Reach s t'
  answers : rs ≡ rs'
  live : t.live ≡ t'.live
  alloc : t.world.alloc ≡ t'.world.alloc

Twins-Together :
    {s t t' : System} {rs rs' : List (Option SliceResult)}
    → Inv s.live s.world
    → Twins s rs t rs' t'
    → Together s rs t rs' t'
Twins-Together inv begin = record {
  one = here;
  other = here;
  answers = refl;
  live = refl;
  alloc = refl;
}
Twins-Together inv (both {rs} {rs'} {t} {t'} {u} {u'} twins st st' same) =
    let so_far = Twins-Together inv twins in
    let seen : view (answer st, u) ≡ view (answer st', u') =
      ap view (Step-eq-after st (Reach-Inv inv so_far.one))
      ∙ after-SameRequest t t' same so_far.live so_far.alloc
      ∙ sym (ap view (Step-eq-after st' (Reach-Inv inv so_far.other))) in
    record {
      one = next so_far.one st;
      other = next so_far.other st';
      answers = cc (seen, so_far.answers);
      live = ap (λ (v : Option SliceResult × Blocks × SecStackSinglePageAlloc). v.1) seen;
      alloc = ap (λ (v : Option SliceResult × Blocks × SecStackSinglePageAlloc). v.2) seen;
    }

-- Two runs of clients from one state in which the invariant holds, with the same requests but
-- other bytes written to the live blocks: all calls return the same, the same blocks are alive,
-- the state of the allocator is the same, and so is every byte that lies in no live block.
pub Twins-Indistinct :
    {s t t' : System} {rs rs' : List (Option SliceResult)}
    → Inv s.live s.world
    → Twins s rs t rs' t'
    → (rs ≡ rs') × Indistinct t t'
Twins-Indistinct {s} {t} {t'} inv twins =
    let h = Twins-Together inv twins in
    let (page, outside) = Reach-SameOutside inv h.one in
    let (page', outside') = Reach-SameOutside inv h.other in
    (
      h.answers,
      record {
        live = h.live;
        alloc = h.alloc;
        memory = λ a o.
            elim (InRange-or_not s.world.alloc.page.page_ptr s.world.alloc.page.page_size a) [
              | inl i ↦
                  (Reach-Inv inv h.one).zeroed a (rw page i) o
                  ∙ sym (
                      (Reach-Inv inv h.other).zeroed a (rw page' i)
                        (subst (λ l. Outside a l) h.live o))
              | inr n ↦ outside a n ∙ sym (outside' a n)
            ];
      },
    )
