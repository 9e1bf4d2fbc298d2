-- ===== src/Tests/Bump.antt =====
-- A simple backend for the wrapper of src/zeroizing_alloc.rs: it hands out the bytes of one region
-- in order, and takes nothing back.
use secmem_alloc.Base.{
  ℕ, ◌+◌, ◌≤◌, ◌<◌, ◌≡◌, inl, inr, refl, Bool, true, Bool-cases, arith, leb, leb→le, if◌then◌else◌,
  done,
}
use secmem_alloc.Memory.{Memory, World, is_mapped, fill}
use secmem_alloc.Memory.Ranges.{fill-inside, fill-outside}
use secmem_alloc.Util.Align.{round_up, round_up_bounds, round_up-IsRoundUp, pos_of_power}
use secmem_alloc.Traits.{GlobalAlloc, WritesIn}
use secmem_alloc.Layout.{Layout, IsLayout}
use secmem_alloc.ZeroizingAlloc.Contract.{IsHeld, IsAllocated, IsGlobalAlloc}

-- The state is the next free address.
abbrev pub Bump : Type 0
Bump = World ℕ

pub record Ready (w : Bump) : Type 0 where
  pub low : 0x1000 ≤ w.alloc
  pub high : w.alloc ≤ 0x2000
  pub mapped : (a : ℕ) → 0x1000 ≤ a → a < 0x2000 → is_mapped (w.mem a) ≡ true

pub record Live (w : Bump) (p : ℕ) (l : Layout) : Type 0 where
  pub held : IsHeld w p l
  pub below : p + l.size ≤ w.alloc

abbrev start : Layout → Bump → ℕ
start l w = round_up w.alloc l.align

abbrev fits : Layout → Bump → Bool
fits l w = leb (start l w + l.size) 0x2000

abbrev taken : Layout → Bump → Bump
taken l w = record w { alloc = start l w + l.size }

abbrev cleared : Layout → Bump → Bump
cleared l w = record (taken l w) { mem = fill w.mem (start l w) 0 l.size }

abbrev pub bump : GlobalAlloc ℕ
bump = record {
  alloc = λ l w. if fits l w then done (start l w, taken l w) else done (0, w);
  dealloc = λ p l w. done (tt, w);
  alloc_zeroed = λ l w. if fits l w then done (start l w, cleared l w) else done (0, w);
}

still :
    (p : ℕ) (l : Layout) (before after : Memory)
    → WritesIn p l before after
    → (a : ℕ) → is_mapped (before a) ≡ true
    → is_mapped (after a) ≡ true
still p l before after wr a e = ground (arith, wr.elsewhere a, wr.still_mapped a)

Live-WritesIn :
    (w : Bump) (m : Memory)
    → ((a : ℕ) → is_mapped (w.mem a) ≡ true → is_mapped (m a) ≡ true)
    → (q : ℕ) (k : Layout) → Live w q k
    → Live (record w { mem = m }) q k
Live-WritesIn w m kept q k live = record {
  held = record {
    layout = live.held.layout;
    nonempty = live.held.nonempty;
    nonnull = live.held.nonnull;
    small = live.held.small;
    mapped = λ a x y. kept a (live.held.mapped a x y);
  };
  below = live.below;
}

clear_still :
    (w : Bump) (l : Layout) (a : ℕ)
    → is_mapped (w.mem a) ≡ true
    → is_mapped ((cleared l w).mem a) ≡ true
unfolding fill
clear_still w l a h = ground arith

-- A block that fits the region is live, and above all others.
taken_lem :
    (w : Bump) (l : Layout) (m : Memory)
    → Ready w
    → IsLayout l
    → 0 < l.size
    → fits l w ≡ true
    → ((a : ℕ) → is_mapped (w.mem a) ≡ true → is_mapped (m a) ≡ true)
    → ((a : ℕ) → a < w.alloc → m a ≡ w.mem a)
    → IsAllocated Ready Live l w (start l w) (record (taken l w) { mem = m })
taken_lem w l m ready lay pos fit kept same = record {
  ready = record {
    low = omega (arith, ready.low, bounds);
    high = fits_in;
    mapped = λ a x y. kept a (ready.mapped a x y);
  };
  keeps = λ q k live.
      let old = Live-WritesIn w m kept q k live in
      (
        record {
          held = record {
            layout = old.held.layout;
            nonempty = old.held.nonempty;
            nonnull = old.held.nonnull;
            small = old.held.small;
            mapped = old.held.mapped;
          };
          below = omega (arith, live.below, bounds);
        },
        λ a x y. same a (omega (arith, live.below)),
      );
  block = inr (
    record {
      held = record {
        layout = lay;
        nonempty = pos;
        nonnull = omega (arith, ready.low, bounds);
        small = omega (arith, fits_in);
        mapped = λ a x y.
            kept a (ready.mapped a (omega (arith, ready.low, bounds)) (omega (arith, fits_in)));
      };
      below = omega arith;
    },
    (round_up-IsRoundUp w.alloc l.align (pos_of_power lay.power)).multiple,
    λ q k live. inr (omega (arith, live.below, bounds)),
  );
}
  where
    bounds : (w.alloc ≤ start l w) × (start l w < w.alloc + l.align)
    bounds = round_up_bounds w.alloc l.align (pos_of_power lay.power)

    fits_in : start l w + l.size ≤ 0x2000
    fits_in = leb→le (start l w + l.size) 0x2000 fit

refused : (w : Bump) (l : Layout) → Ready w → IsAllocated Ready Live l w 0 w
refused w l ready = record {
  ready = ready;
  keeps = λ q k live. (live, λ a x y. refl);
  block = inl refl;
}

pub bump-IsGlobalAlloc : IsGlobalAlloc Ready Live bump
bump-IsGlobalAlloc = record {
  held = λ w p l live. live.held;
  writable = λ w p l m ready live wr. (
    record {
      low = ready.low;
      high = ready.high;
      mapped = λ a x y. still p l w.mem m wr a (ready.mapped a x y);
    },
    Live-WritesIn w m (still p l w.mem m wr),
  );
  allocs = λ w l ready lay pos. elim (Bool-cases (fits l w)) [
    | inl e ↦ (
      start l w,
      taken l w,
      rw e refl,
      taken_lem w l w.mem ready lay pos e (λ a h. h) (λ a h. refl),
    )
    | inr e ↦ (0, w, rw e refl, refused w l ready)
  ];
  allocs_zeroed = λ w l ready lay pos. elim (Bool-cases (fits l w)) [
    | inl e ↦ (
      start l w,
      cleared l w,
      rw e refl,
      taken_lem w l (cleared l w).mem ready lay pos e (clear_still w l) (λ a h.
          fill-outside w.mem (start l w) 0 l.size a
            (inl (omega (arith, round_up_bounds w.alloc l.align (pos_of_power lay.power))))),
      λ some_block a x y. fill-inside w.mem (start l w) 0 l.size a x y,
    )
    | inr e ↦ (0, w, rw e refl, refused w l ready, λ some_block a x y. absurd (omega arith))
  ];
  deallocs = λ w p l ready live. (w, refl, ready, λ q k h o. (h, λ a x y. refl));
}
