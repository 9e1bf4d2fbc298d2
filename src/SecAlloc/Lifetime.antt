-- ===== src/SecAlloc/Lifetime.antt =====
-- The life of an allocator of src/sec_alloc.rs over any source of pages: `new`, any use by clients, and
-- the two `drop`s, of the allocator and then of its page.
use mathlib.Core.Path.{subst, subst₂}
use secmem_alloc.Base.{◌+◌, ◌≤◌, ◌<◌, ◌≡◌, sym, inl, inr, refl, [], done, done_inj, ok, err}
use secmem_alloc.Memory.{Memory, World}
use secmem_alloc.Page.{Page}
use secmem_alloc.Page.Source.{PageSource, WrittenPage, drop_restores}
use secmem_alloc.SecAlloc.{SecStackSinglePageAlloc, Sec, drop}
use secmem_alloc.SecAlloc.Invariant.{Inv}
use secmem_alloc.SecAlloc.Dropped.{drop-done}
use secmem_alloc.SecAlloc.New.{with_page, new, new-Inv}
use secmem_alloc.SecAlloc.Client.{System, Reach}
use secmem_alloc.SecAlloc.Client.Safety.{Reach-Inv}
use secmem_alloc.SecAlloc.Client.Isolation.{Reach-SameOutside}

-- Clients leave the page mapped, and write to nothing else.
Reach-WrittenPage :
    {s t : System}
    → Inv s.live s.world
    → Reach s t
    → WrittenPage s.world.alloc.page s.world.mem t.world.mem
Reach-WrittenPage inv reach =
    let (same, outside) = Reach-SameOutside inv reach in
    record {
      elsewhere = outside;
      still_mapped = λ a i.
          (Reach-Inv inv reach).mapped a
            (subst (λ (q : Page). (q.page_ptr ≤ a) × (a < q.page_ptr + q.page_size)) (sym same) i);
    }

module _ {K E : Type 0} (source : PageSource K E) where
  -- The allocator and then its page can be dropped, and the memory is `m` then.
  abbrev pub Restores : Memory → K → Sec → Type 0
  Restores m k v =
      (drop v ≡ done (tt, v))
      × ((w : World K) × (source.drop v.alloc.page (record { alloc = k; mem = v.mem })
            ≡ done (tt, w))
          × (w.mem ≡ m))

  pub Inv-new :
      (w w1 : World K) (a : SecStackSinglePageAlloc)
      → new source w ≡ done (ok a, w1)
      → Inv [] (record { alloc = a; mem = w1.mem })
  Inv-new w w1 a run = elim (new-Inv source w) [
    | inl (a', w', ran, inv, up) ↦
        let same = done_inj ran run in
        let same_alloc : a' ≡ a = cc same in
        let same_world : w' ≡ w1 = cc same in
        subst₂
          (λ (x : SecStackSinglePageAlloc) (y : World K).
            Inv [] (record { alloc = x; mem = y.mem }))
          same_alloc same_world inv
    | inr (e, w', ran, kept) ↦ absurd (cc (ran, run))
  ]

  pub new-eq :
      (w w1 : World K) (page : Page)
      → source.alloc_new_lock w ≡ done (ok page, w1)
      → new source w ≡ done (ok (record { bytes = 0; page = page; stack_offset = 0 }), w1)
  unfolding new with_page
  new-eq w w1 page e = rw e refl

  new_fails :
      (w w1 : World K) (e : E)
      → source.alloc_new_lock w ≡ done (err e, w1)
      → new source w ≡ done (err e, w1)
  unfolding new with_page
  new_fails w w1 e failed = rw failed refl

  -- The page of a new allocator is the one that the source has given out.
  page_of_new :
      (w w1 : World K) (a : SecStackSinglePageAlloc)
      → new source w ≡ done (ok a, w1)
      → source.alloc_new_lock w ≡ done (ok a.page, w1)
  page_of_new w w1 a run = elim (source.gives_page w) [
    | inl (page, w', ran, up, held) ↦
        let same = done_inj (new-eq w w' page ran) run in
        let same_alloc : record { bytes = 0; page = page; stack_offset = 0 } ≡ a = cc same in
        let same_world : w' ≡ w1 = cc same in
        subst₂
          (λ (x : SecStackSinglePageAlloc) (y : World K).
            source.alloc_new_lock w ≡ done (ok x.page, y))
          same_alloc same_world ran
    | inr (e, w', failed, kept) ↦ absurd (cc (new_fails w w' e failed, run))
  ]

  -- Over any source of pages: if `new` has returned an allocator, and clients have made any
  -- sequence of steps after which no block is alive, then `drop` of the allocator returns,
  -- `drop` of its page returns, and the memory of the process is what it was before `new`.
  pub new-Restores :
      (w w1 : World K) (a : SecStackSinglePageAlloc) (v : Sec)
      → new source w ≡ done (ok a, w1)
      → Reach
          (record { live = []; world = record { alloc = a; mem = w1.mem } })
          (record { live = []; world = v })
      → Restores w.mem w1.alloc v
  new-Restores w w1 a v run reach =
      let inv = Inv-new w w1 a run in
      let (same, outside) = Reach-SameOutside inv reach in
      let (w2, dropped, restored) =
        drop_restores source w w1 a.page v.mem (page_of_new w w1 a run)
          (Reach-WrittenPage inv reach) in
      ((drop-done (Reach-Inv inv reach)).0, (w2, rw same dropped, restored))
