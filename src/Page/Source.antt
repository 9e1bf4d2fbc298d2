-- ===== src/Page/Source.antt =====
-- What the allocator of src/sec_alloc.rs needs of `Page::alloc_new_lock`, whichever of the modules
-- under src/internals/mem is compiled in.
use native.Mathlib.Decide.{dec_lt}
use mathlib.Core.Path.{subst₂}
use secmem_alloc.Base.{
  done_inj, refl, true, ℕ, ◌+◌, ◌%◌, ◌≤◌, ◌<◌, ◌≡◌, ◌∙◌, sym, fun_ext, arith, usize_mod,
  IsPowerOfTwo, ◌⊎◌, inl, inr, none, some, M, Outcome, done, Result, ok, err,
}
use secmem_alloc.Memory.{Memory, World, is_mapped}
use secmem_alloc.Util.Align.{mod-power, eight-IsPowerOfTwo}
use secmem_alloc.Page.{Page}

abbrev pub InRange : ℕ → ℕ → ℕ → Type 0
InRange p len a = (p ≤ a) × (a < p + len)

-- The bytes from `p` on, a multiple of `align`, were not mapped in `before`; in `after` they are, and
-- are 0. Nothing else has changed.
pub record Mapped (align p len : ℕ) (before after : Memory) : Type 0 where
  pub nonnull : 0 < p
  pub aligned : p % align ≡ 0
  pub small : p + len < usize_mod
  pub free : (a : ℕ) → InRange p len a → before a ≡ none
  pub zeroed : (a : ℕ) → InRange p len a → after a ≡ some 0
  pub others : (a : ℕ) → ¬ InRange p len a → after a ≡ before a

-- The bytes from `p` on are not mapped any more. Nothing else has changed.
pub record Unmapped (p len : ℕ) (before after : Memory) : Type 0 where
  pub gone : (a : ℕ) → InRange p len a → after a ≡ none
  pub others : (a : ℕ) → ¬ InRange p len a → after a ≡ before a

-- The call returns a new page of zeros, or an error, and then the memory is as it was.
abbrev pub GivesPage : {K E : Type 0} → World K → Outcome (Result Page E × World K) → Type 0
GivesPage {K} {E} w o =
    ((page : Page) × (w' : World K) × (o ≡ done (ok page, w'))
      × Mapped 8 page.page_ptr page.page_size w.mem w'.mem)
    ⊎ ((e : E) × (w' : World K) × (o ≡ done (err e, w')) × (w'.mem ≡ w.mem))

pub InRange-or_not : (p len a : ℕ) → InRange p len a ⊎ (¬ InRange p len a)
InRange-or_not p len a = elim (dec_lt a p) [
  | yes below ↦ inr (λ i. omega arith)
  | no above ↦ elim (dec_lt a (p + len)) [
    | yes inside ↦ inl (omega arith, inside)
    | no beyond ↦ inr (λ i. omega arith)
  ]
]

-- To unmap what was mapped restores the memory, whatever has been written there in between.
pub Unmapped-restores :
    {align p len : ℕ} {m m1 m2 m3 : Memory}
    → Mapped align p len m m1
    → ((a : ℕ) → ¬ InRange p len a → m2 a ≡ m1 a)
    → Unmapped p len m2 m3
    → m3 ≡ m
Unmapped-restores {p = p} {len = len} up outside down = fun_ext λ a. elim (InRange-or_not p len a) [
  | inl i ↦ down.gone a i ∙ sym (up.free a i)
  | inr o ↦ down.others a o ∙ outside a o ∙ up.others a o
]

pub Unmapped-Mapped :
    {align p len : ℕ} {m m' m'' : Memory}
    → Mapped align p len m m'
    → Unmapped p len m' m''
    → m'' ≡ m
Unmapped-Mapped up down = Unmapped-restores up (λ a o. refl) down

-- A page that starts at a multiple of its size is aligned to 8.
pub Mapped-eight :
    {p len : ℕ} {m m' : Memory}
    → IsPowerOfTwo len
    → 8 ≤ len
    → Mapped len p len m m'
    → Mapped 8 p len m m'
Mapped-eight {p} {len} power large up = record {
  nonnull = up.nonnull;
  aligned = mod-power 8 len p eight-IsPowerOfTwo power large up.aligned;
  small = up.small;
  free = up.free;
  zeroed = up.zeroed;
  others = up.others;
}

-- The same, of a system that keeps track of its pages: `Held k page` says that in the state `k` the
-- page is one that it has given out.
abbrev pub GivesHeld :
    {K E : Type 0} → (K → Page → Type 0) → World K → Outcome (Result Page E × World K) → Type 0
GivesHeld {K} {E} Held w o =
    ((page : Page) × (w' : World K) × (o ≡ done (ok page, w'))
      × Mapped 8 page.page_ptr page.page_size w.mem w'.mem
      × Held w'.alloc page)
    ⊎ ((e : E) × (w' : World K) × (o ≡ done (err e, w')) × (w'.mem ≡ w.mem))

pub GivesHeld-GivesPage :
    {K E : Type 0} (Held : K → Page → Type 0) (w : World K) (o : Outcome (Result Page E × World K))
    → GivesHeld Held w o
    → GivesPage w o
GivesHeld-GivesPage Held w o (inl (page, w', ran, up, held)) = inl (page, w', ran, up)
GivesHeld-GivesPage Held w o (inr failed) = inr failed

-- The bytes of the page can be read and written.
abbrev pub IsMapped : Page → Memory → Type 0
IsMapped page m = (a : ℕ) → InRange page.page_ptr page.page_size a → is_mapped (m a) ≡ true

-- The interface: the two calls and their promises. To drop a page that is held unmaps it.
pub record PageSource (K E : Type 0) : Type 1 where
  pub alloc_new_lock : M (World K) (Result Page E)
  pub drop : Page → M (World K) (Unit {0})
  pub Held : K → Page → Type 0
  pub gives_page : (w : World K) → GivesHeld Held w (alloc_new_lock w)
  pub releases :
      (w : World K) (page : Page)
      → Held w.alloc page
      → IsMapped page w.mem
      → (w' : World K) × (drop page w ≡ done (tt, w'))
        × Unmapped page.page_ptr page.page_size w.mem w'.mem

-- A page of zeros that has been written to is mapped in place of nothing still.
pub record WrittenPage (page : Page) (before after : Memory) : Type 0 where
  pub elsewhere : (a : ℕ) → ¬ InRange page.page_ptr page.page_size a → after a ≡ before a
  pub still_mapped : IsMapped page after

module _ {K E : Type 0} (source : PageSource K E) where
  -- If the source has given out a page and only that page has been written to, then `drop` of the
  -- page returns, and the memory is what it was before.
  pub drop_restores :
      (w w1 : World K) (page : Page) (m : Memory)
      → source.alloc_new_lock w ≡ done (ok page, w1)
      → WrittenPage page w1.mem m
      → (w2 : World K) × (source.drop page (record w1 { mem = m }) ≡ done (tt, w2))
        × (w2.mem ≡ w.mem)
  drop_restores w w1 page m run wr = elim (source.gives_page w) [
    | inl (page', w', ran, up, held) ↦
        let same = done_inj ran run in
        let same_page : page' ≡ page = cc same in
        let same_world : w' ≡ w1 = cc same in
        let up' : Mapped 8 page.page_ptr page.page_size w.mem w1.mem =
          subst₂ (λ (q : Page) (v : World K). Mapped 8 q.page_ptr q.page_size w.mem v.mem) same_page
            same_world up in
        let held' : source.Held w1.alloc page =
          subst₂ (λ (q : Page) (v : World K). source.Held v.alloc q) same_page same_world held in
        let (w2, dropped, down) =
          source.releases (record w1 { mem = m }) page held' wr.still_mapped in
        (w2, dropped, Unmapped-restores up' wr.elsewhere down)
    | inr (e, w', ran, kept) ↦ absurd (cc (ran, run))
  ]
