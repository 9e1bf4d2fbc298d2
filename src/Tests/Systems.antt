-- ===== src/Tests/Systems.antt =====
-- Simple systems for the page sources: pages of 0x1000 bytes, of which there is one, at 0x3000.
use mathlib.Core.Path.{subst}
use native.Mathlib.Decide.{ℕ_discrete}
use secmem_alloc.Base.{
  ℕ, zero, suc, ◌+◌, ◌≤◌, ◌<◌, ◌≡◌, inl, inr, refl, Bool, true, false, Bool-cases, Option, none,
  some, arith, if◌then◌else◌, ◌==◌, M, done, Result, ok, err,
}
use secmem_alloc.Memory.{Memory, World, is_mapped, in_range, fill}
use secmem_alloc.Memory.Ranges.{fill-inside, fill-outside}
use secmem_alloc.Layout.{Layout}
use secmem_alloc.Page.Source.{Mapped, Unmapped}
use secmem_alloc.Page.{Page, as_ptr_mut, page_size}
use secmem_alloc.Page.Unix
use secmem_alloc.Memory.{new_unchecked}
use secmem_alloc.Page.Unix.{freebsd, Rustix, IsRustix}
use secmem_alloc.Page.Windows.{Windows, IsWindows}
use secmem_alloc.Page.Miri.{page_layout, StdAlloc, IsStdAlloc}

-- All of the `len` bytes from `p` on are free.
abbrev all_free : Memory → ℕ → ℕ → Bool
all_free m p zero = true
all_free m p (suc len) = if is_mapped (m p) then false else all_free m (suc p) len

head_free :
    (v : Option ℕ) (rest : Bool)
    → (if is_mapped v then false else rest) ≡ true
    → (v ≡ none) × (rest ≡ true)
head_free none rest e = (refl, e)
head_free (some v) rest e = cc

free_at :
    (m : Memory) (p len : ℕ) → all_free m p len ≡ true → (a : ℕ) → p ≤ a → a < p + len → m a ≡ none
free_at m p zero e a h k = absurd (omega arith)
free_at m p (suc len) e a h k =
    let (head, rest) = head_free (m p) (all_free m (suc p) len) e in
    elim (ℕ_discrete p a) [
      | yes same ↦ subst (λ x. m x ≡ none) same head
      | no later ↦ free_at m (suc p) len rest a (omega arith) (omega arith)
    ]

unfoldable free : Memory → Bool
free m = all_free m 0x3000 0x1000

unfoldable mapped : {K : Type 0} → World K → World K
mapped w = record w { mem = fill w.mem 0x3000 0 0x1000 }

unfoldable clear : Memory → ℕ → ℕ → Memory
clear m p len a = if in_range p len a then none else m a

mapped-Mapped :
    {K : Type 0} (w : World K)
    → free w.mem ≡ true
    → Mapped 0x1000 0x3000 0x1000 w.mem (mapped w).mem
unfolding free mapped
mapped-Mapped w e = record {
  nonnull = omega arith;
  aligned = refl;
  small = omega arith;
  free = λ a i. free_at w.mem 0x3000 0x1000 e a i.0 i.1;
  zeroed = λ a i. fill-inside w.mem 0x3000 0 0x1000 a i.0 i.1;
  others = λ a i. fill-outside w.mem 0x3000 0 0x1000 a (ground arith);
}

clear-Unmapped : (m : Memory) (p len : ℕ) → Unmapped p len m (clear m p len)
unfolding clear
clear-Unmapped m p len = record { gone = λ a i. ground arith; others = λ a i. ground arith }

-- The state says if pages may be locked.
unfoldable pub rustix : Rustix Bool (Unit {0})
unfolding free mapped clear
rustix = record {
  param_page_size = 0x1000;
  mmap_anonymous =
      λ at len prot flags w. if free w.mem then done (ok 0x3000, mapped w) else done (err tt, w);
  mlock = λ p len w. if w.alloc then done (ok tt, w) else done (err tt, w);
  munmap = λ p len w. done (ok tt, record w { mem = clear w.mem p len });
}

pub rustix-IsRustix : IsRustix rustix
unfolding rustix
rustix-IsRustix = record {
  page_power = (12, omega arith, refl);
  page_large = omega arith;
  mmap_maps = λ flags w. elim (Bool-cases (free w.mem)) [
    | inl e ↦ inl (0x3000, mapped w, rw e, mapped-Mapped w e)
    | inr e ↦ inr (tt, w, rw e, refl)
  ];
  mlock_keeps = λ p len w. elim (Bool-cases w.alloc) [
    | inl e ↦ inl (w, rw e, refl)
    | inr e ↦ inr (tt, w, rw e, refl)
  ];
  munmap_unmaps = λ p w aligned held.
      (record w { mem = clear w.mem p 0x1000 }, refl, clear-Unmapped w.mem p 0x1000);
}

unfoldable region_at : ℕ → Option ℕ
region_at p = if p == 0x3000 then some 0x1000 else none

unfoldable release : ℕ → M (World Bool) (Result (Unit {0}) (Unit {0}))
unfolding region_at clear
release p w = elim (region_at p) [
  | none ↦ done (err tt, w)
  | some len ↦ done (ok tt, record w { mem = clear w.mem p len })
]

release-done :
    (p len : ℕ) (w : World Bool)
    → region_at p ≡ some len
    → release p w ≡ done (ok tt, record w { mem = clear w.mem p len })
unfolding release
release-done p len w e = rw (e, release)

unfoldable pub windows : Windows Bool (Unit {0})
unfolding free mapped region_at release
windows = record {
  system_info = record { dw_page_size = 0x1000 };
  virtual_alloc = λ len kind prot w. if free w.mem then done (0x3000, mapped w) else done (0, w);
  virtual_lock = λ p len w. if w.alloc then done (ok tt, w) else done (err tt, w);
  virtual_free = λ p len kind w. release p w;
  region = λ k p. region_at p;
}

pub windows-IsWindows : IsWindows windows
unfolding windows
windows-IsWindows = record {
  page_power = (12, omega arith, refl);
  page_large = omega arith;
  alloc_maps = λ w. elim (Bool-cases (free w.mem)) [
    | inl e ↦ inl (0x3000, mapped w, rw e, mapped-Mapped w e, unfold region_at in refl)
    | inr e ↦ inr (w, rw e, refl)
  ];
  lock_keeps = λ p len w. elim (Bool-cases w.alloc) [
    | inl e ↦ (ok tt, w, rw e, refl, refl)
    | inr e ↦ (err tt, w, rw e, refl, refl)
  ];
  free_unmaps = λ p len w e.
      (record w { mem = clear w.mem p len }, release-done p len w e, clear-Unmapped w.mem p len);
}

unfoldable allocated_at : ℕ → Option Layout
allocated_at p = if p == 0x3000 then some page_layout else none

unfoldable pub std_alloc : StdAlloc Bool
unfolding free mapped clear allocated_at
std_alloc = record {
  alloc_zeroed = λ l w. if free w.mem then done (0x3000, mapped w) else done (0, w);
  dealloc = λ p l w. done (tt, record w { mem = clear w.mem p l.size });
  allocated = λ k p. allocated_at p;
}

pub std_alloc-IsStdAlloc : IsStdAlloc std_alloc
unfolding std_alloc
std_alloc-IsStdAlloc = record {
  alloc_maps = λ w. elim (Bool-cases (free w.mem)) [
    | inl e ↦ inl (0x3000, mapped w, rw e, mapped-Mapped w e, unfold allocated_at in refl)
    | inr e ↦ inr (w, rw e, refl)
  ];
  dealloc_unmaps =
      λ p w held. (record w { mem = clear w.mem p 0x1000 }, refl, clear-Unmapped w.mem p 0x1000);
}

-- Nothing is mapped, and pages may be locked.
abbrev pub empty : World Bool
empty = record { alloc = true; mem = λ a. none }

abbrev pub with_one_page : World Bool
with_one_page = record { alloc = true; mem = fill (λ a. none) 0x3000 0 0x1000 }

abbrev pub the_page : Page
the_page = record { page_ptr = 0x3000; page_size = 0x1000 }

all_free_empty : (p len : ℕ) → all_free empty.mem p len ≡ true
all_free_empty p zero = refl
all_free_empty p (suc len) = all_free_empty (suc p) len

free_empty : free empty.mem ≡ true
unfolding free
free_empty = all_free_empty 0x3000 0x1000

pub rustix_lem : Unix.alloc_new_lock rustix freebsd empty ≡ done (ok the_page, with_one_page)
unfolding rustix mapped Unix.alloc_new_lock Unix.alloc_new_noreserve Unix.mapped_page Unix.lock_page
    Unix.mlock Unix.locked_page new_unchecked as_ptr_mut page_size
rustix_lem = rw free_empty refl
