-- ===== src/SecAlloc/New.antt =====
-- `SecStackSinglePageAlloc::new` of src/sec_alloc.rs, over any source of pages.
use secmem_alloc.Base.{◌≡◌, ◌⊎◌, inl, inr, refl, arith, M, ◌>>=◌, pure, done, Result, ok, err, []}
use secmem_alloc.Memory.{World}
use secmem_alloc.Page.{Page}
use secmem_alloc.Page.Source.{PageSource, Mapped}
use secmem_alloc.SecAlloc.{SecStackSinglePageAlloc}
use secmem_alloc.SecAlloc.Invariant.{Inv}

-- The rest of `new`, after `?`.
unfoldable pub with_page :
    {K E : Type 0} → Result Page E → M (World K) (Result SecStackSinglePageAlloc E)
with_page (ok page) = pure (ok (record { bytes = 0; page = page; stack_offset = 0 }))
with_page (err e) = pure (err e)

module _ {K E : Type 0} (source : PageSource K E) where
  unfoldable pub new : M (World K) (Result SecStackSinglePageAlloc E)
  new = do page ← source.alloc_new_lock; with_page page

  -- Over any source of pages, `new` returns an allocator for which the invariant holds with no
  -- block alive, on a page of zeros whose addresses were free; or it returns an error, with the
  -- memory as it was.
  pub new-Inv :
      (w : World K)
      → ((a : SecStackSinglePageAlloc) × (w' : World K) × (new w ≡ done (ok a, w'))
          × Inv [] (record { alloc = a; mem = w'.mem })
          × Mapped 8 a.page.page_ptr a.page.page_size w.mem w'.mem)
        ⊎ ((e : E) × (w' : World K) × (new w ≡ done (err e, w')) × (w'.mem ≡ w.mem))
  unfolding new with_page
  new-Inv w = elim (source.gives_page w) [
    | inl (page, w', ran, up, held) ↦ inl (
      record { bytes = 0; page = page; stack_offset = 0 },
      w',
      rw ran,
      record {
        page = record { nonnull = up.nonnull; aligned = up.aligned; small = up.small };
        offset_aligned = omega arith;
        offset_in_page = omega arith;
        stacked = omega arith;
        counted = refl;
        reset = λ e. refl;
        mapped = λ a h. rw (up.zeroed a h);
        zeroed = λ a h o. up.zeroed a h;
      },
      up,
    )
    | inr (e, w', ran, same) ↦ inr (e, w', rw ran, same)
  ]
