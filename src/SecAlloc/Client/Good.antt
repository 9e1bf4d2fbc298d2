-- ===== src/SecAlloc/Client/Good.antt =====
-- The states of clients of src/sec_alloc.rs that are good, and the calls that keep them so.
use mathlib.Core.Path.{subst}
use secmem_alloc.Base.{
  ◌==◌, false, ℕ, ◌<◌, ◌≤◌, ◌≡◌, ◌≢◌, inl, inr, true, ◌∷◌, ◌++◌, arith, Outcome, done_inj, done,
  eq→==, ne→==,
}
use secmem_alloc.Memory.{Memory, is_mapped}
use secmem_alloc.Util.{Slice}
use secmem_alloc.Layout.{Layout, IsLayout}
use secmem_alloc.SecAlloc.{Sec, SliceResult}
use secmem_alloc.SecAlloc.Resize.{shrink}
use secmem_alloc.SecAlloc.Blocks.{
  Block, Blocks, Inside, Inside-or_outside, Outside, Outside-middle_inv,
}
use secmem_alloc.SecAlloc.Invariant.{Inv, Inv-mem}
use secmem_alloc.SecAlloc.Deallocate.{IsBlock-bounds}
use secmem_alloc.SecAlloc.Fresh.{block}
use secmem_alloc.SecAlloc.Resized.{IsResized}
use secmem_alloc.SecAlloc.Move.{Moves}
use secmem_alloc.SecAlloc.Contract.{shrink-Moves}
use native.Mathlib.Decide.{ℕ_discrete}
use secmem_alloc.SecAlloc.Deallocate.{Fits, freed-Inv}
use secmem_alloc.SecAlloc.Contract.{shrink_empty}
use secmem_alloc.SecAlloc.Empty.{pushed, Issues}
use secmem_alloc.SecAlloc.Client.{System, replace, finish}

abbrev pub Good : System → Type 0
Good s = Inv s.live s.world

pub at_block :
    {live : Blocks} {w : Sec} (above : Blocks) (b : Block) (below : Blocks)
    → Inv live w
    → live ≡ above ++ b ∷ below
    → Inv (above ++ b ∷ below) w
at_block {w} above b below inv e = subst (λ l. Inv l w) e inv

-- A slice that took the place of a block is one of the live blocks.
replace-Inv :
    (above : Blocks) (b : Block) (below : Blocks) {new : Layout} {kept : ℕ} {w w' : Sec} {s : Slice}
    → Inv (above ++ b ∷ below) w
    → 0 < new.size
    → IsResized above below b new kept w s w'
    → Inv (replace above b below s) w'
replace-Inv above b below {new} {kept} {w} {w'} {s} inv pos r = elim r.placed [
  | inl (same, inv') ↦ rw (some_len, eq→== s.addr b.addr same) inv'
  | inr (apart, inv') ↦ rw (some_len, ne→== s.addr b.addr (moved apart)) inv'
]
  where
    some_len : (s.len == 0) ≡ false
    some_len = ne→== s.len 0 (omega (arith, r.large))

    moved : ((a : ℕ) → Inside a (block s) → Outside a (above ++ b ∷ below)) → s.addr ≢ b.addr
    moved apart e =
        let off = apart s.addr (omega (arith, r.large)) in
        omega (
          arith,
          IsBlock-bounds above below b inv,
          (Outside-middle_inv w.alloc.page.page_ptr b below s.addr above off).0,
        )

-- A resizing call that has returned leaves a good state.
pub moved-Good :
    (above : Blocks) (b : Block) (below : Blocks) {live : Blocks} {new : Layout} {kept : ℕ}
    {w : Sec} {o : Outcome (SliceResult × Sec)} (r : SliceResult × Sec)
    → Inv live w
    → live ≡ above ++ b ∷ below
    → 0 < new.size
    → Moves above below b new kept w o
    → o ≡ done r
    → Good (finish live (replace above b below) r)
moved-Good above b below {live} {w = w} r inv e pos moves run = elim moves [
  | inl (s, w', ran, res) ↦
      rw (done_inj run ran) (replace-Inv above b below (at_block above b below inv e) pos res)
  | inr (ran, full) ↦ rw (done_inj run ran) inv
]

pub written-Good :
    (above : Blocks) (b : Block) (below : Blocks) {w : Sec} {m : Memory}
    → Inv (above ++ b ∷ below) w
    → ((a : ℕ) → ¬ Inside a b → m a ≡ w.mem a)
    → ((a : ℕ) → Inside a b → is_mapped (m a) ≡ true)
    → Inv (above ++ b ∷ below) (record w { mem = m })
written-Good above b below {w} {m} inv elsewhere still =
    Inv-mem inv m
      (λ a h. elim (Inside-or_outside a b) [
        | inl i ↦ still a i
        | inr o ↦ rw (elsewhere a (λ i. omega arith)) (inv.mapped a h)
      ])
      (λ a h o.
        elsewhere a
          (λ i. omega (arith, (Outside-middle_inv w.alloc.page.page_ptr b below a above o).0)))

-- An allocation that has returned leaves a good state.
pub issued-Good :
    (live : Blocks) {w : Sec} {o : Outcome (SliceResult × Sec)} (r : SliceResult × Sec)
    → Inv live w
    → Issues live w o
    → o ≡ done r
    → Good (finish live (pushed live) r)
issued-Good live r inv issues run = elim issues [
  | inl (s, w', ran, inv', mem, page) ↦ rw (done_inj run ran) inv'
  | inr ran ↦ rw (done_inj run ran) inv
]

pub shrunk-Good :
    (above : Blocks) (b : Block) (below : Blocks) {live : Blocks} {w : Sec} (old new : Layout)
    (r : SliceResult × Sec)
    → Inv live w
    → live ≡ above ++ b ∷ below
    → Fits old b
    → IsLayout new
    → new.size ≤ old.size
    → shrink b.addr old new w ≡ done r
    → Good (finish live (replace above b below) r)
shrunk-Good above b below old new r inv e fits lay le run =
    let good = at_block above b below inv e in
    elim (ℕ_discrete new.size 0) [
      | yes z ↦
          rw (done_inj run (shrink_empty above below b good old new fits lay z))
            (freed-Inv above below b good)
      | no some_size ↦
          moved-Good above b below r inv e (omega arith)
            (shrink-Moves above below b good old new fits lay le (omega arith)) run
    ]
