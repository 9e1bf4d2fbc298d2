-- ===== src/SecAlloc/Reuse.antt =====
-- Stacked use of the allocator of src/sec_alloc.rs.
use mathlib.Core.Path.{subst₂}
use native.Mathlib.Decide.{dec_le}
use secmem_alloc.Base.{
  ℕ, ◌+◌, ◌≤◌, ◌<◌, ◌≡◌, inl, inr, ◌∙◌, sym, ap, fun_ext, true, [], ◌∷◌, arith, done, ok, le→leb,
  lt→leb, done_inj,
}
use secmem_alloc.Memory.{Memory, is_mapped, fill}
use secmem_alloc.Memory.Ranges.{fill-inside, fill-outside}
use secmem_alloc.Util.{Slice}
use secmem_alloc.Util.Align.{round8}
use secmem_alloc.Layout.{Layout, IsLayout}
use secmem_alloc.SecAlloc.{Sec, allocate}
use secmem_alloc.SecAlloc.Resize.{deallocate}
use secmem_alloc.SecAlloc.Blocks.{Blocks, Inside, Inside-or_outside, Outside-above}
use secmem_alloc.SecAlloc.Invariant.{Inv, Inv-mem, stack_top, page_end}
use secmem_alloc.SecAlloc.Allocate.{slice, claimed, allocate_zeroed-eq}
use secmem_alloc.SecAlloc.Deallocate.{freed, deallocate-eq}
use secmem_alloc.SecAlloc.Fresh.{block, claimed-Inv}

-- The client has written to the block `s` only, and has unmapped nothing.
pub record WrittenIn (s : Slice) (before after : Memory) : Type 0 where
  pub elsewhere : (a : ℕ) → ¬ Inside a (block s) → after a ≡ before a
  pub still_mapped : (a : ℕ) → Inside a (block s) → is_mapped (after a) ≡ true

pub Inv-WrittenIn :
    {bs : Blocks} {w : Sec} {s : Slice} {m : Memory}
    → Inv (block s ∷ bs) w
    → WrittenIn s w.mem m
    → Inv (block s ∷ bs) (record w { mem = m })
Inv-WrittenIn {bs} {w} {s} {m} inv wr =
    Inv-mem inv m
      (λ a h. elim (Inside-or_outside a (block s)) [
        | inl i ↦ wr.still_mapped a i
        | inr o ↦ rw (wr.elsewhere a (λ i. omega arith)) (inv.mapped a h)
      ])
      (λ a h o. wr.elsewhere a (λ i. omega (arith, o.0)))

-- The layouts of at most 8 byte alignment: the block starts right at the top of the stack.
module _ {bs : Blocks} {w : Sec} (inv : Inv bs w) (l : Layout) (lay : IsLayout l) (pos : 0 < l.size)
    (low : l.align ≤ 8) where
  allocate_low :
      stack_top w + round8 l.size ≤ page_end w
      → allocate l w
        ≡ done (ok (slice (stack_top w) (round8 l.size)), claimed w (stack_top w) (round8 l.size))
  unfolding allocate
  allocate_low fits =
      allocate_zeroed-eq inv l lay pos
      ∙ rw (le→leb l.align 8 low, le→leb (stack_top w + round8 l.size) (page_end w) fits)

  restored :
      (m : Memory)
      → stack_top w + round8 l.size ≤ page_end w
      → WrittenIn (slice (stack_top w) (round8 l.size)) w.mem m
      → freed
          (record (claimed w (stack_top w) (round8 l.size)) { mem = m })
          (block (slice (stack_top w) (round8 l.size)))
        ≡ w
  restored m fits wr = ground (arith, inv.reset, wiped)
    where
      wiped : fill m (stack_top w) 0 (round8 l.size) ≡ w.mem
      wiped = fun_ext λ a.
          elim (Inside-or_outside a (block (slice (stack_top w) (round8 l.size)))) [
            | inl i ↦
                fill-inside m (stack_top w) 0 (round8 l.size) a i.0 i.1
                ∙ sym (
                    inv.zeroed a (omega arith)
                      (Outside-above _ (stack_top w) a bs inv.stacked (omega arith)))
            | inr o ↦
                fill-outside m (stack_top w) 0 (round8 l.size) a o
                ∙ wr.elsewhere a (λ i. omega arith)
          ]

  roundtrip :
      (m : Memory)
      → stack_top w + round8 l.size ≤ page_end w
      → WrittenIn (slice (stack_top w) (round8 l.size)) w.mem m
      → deallocate (stack_top w) l (record (claimed w (stack_top w) (round8 l.size)) { mem = m })
        ≡ done (tt, w)
  roundtrip m fits wr =
      deallocate-eq [] bs (block s) (Inv-WrittenIn {s = s} after wr) l (omega arith)
      ∙ ap (λ (v : Sec). done (tt {0}, v)) (restored m fits wr)
    where
      s : Slice
      s = slice (stack_top w) (round8 l.size)

      after : Inv (block s ∷ bs) (claimed w (stack_top w) (round8 l.size))
      after =
          claimed-Inv inv (stack_top w) (round8 l.size) (omega arith) fits
            (omega (arith, inv.page, inv.offset_aligned)) (omega arith) (omega arith)

  -- Under the invariant, an allocation of at most 8 byte alignment and not of size 0 that is
  -- given back before any other call, whatever the client has written into it, leaves the
  -- allocator and the memory exactly as they were before it.
  pub deallocate-allocate :
      (s : Slice) (w' : Sec) (m : Memory)
      → allocate l w ≡ done (ok s, w')
      → WrittenIn s w'.mem m
      → deallocate s.addr l (record w' { mem = m }) ≡ done (tt, w)
  unfolding allocate
  deallocate-allocate s w' m e wr = elim (dec_le (stack_top w + round8 l.size) (page_end w)) [
    | yes fits ↦
        let same = done_inj e (allocate_low fits) in
        let same_slice : s ≡ slice (stack_top w) (round8 l.size) = cc same in
        let same_world : w' ≡ claimed w (stack_top w) (round8 l.size) = cc same in
        rw (same_slice, same_world)
          (roundtrip m fits (subst₂ (λ t v. WrittenIn t v.mem m) same_slice same_world wr))
    | no full ↦ absurd (
        cc (
          e,
          allocate_zeroed-eq inv l lay pos,
          le→leb l.align 8 low,
          lt→leb (stack_top w + round8 l.size) (page_end w) (omega arith),
        ))
  ]
