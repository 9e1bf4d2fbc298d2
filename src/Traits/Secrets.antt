-- ===== src/Traits/Secrets.antt =====
-- What two runs of the clients of a discreet allocator have in common, when they differ in the bytes
-- that are written only.
use mathlib.Core.Path.{subst, subst₂}
use secmem_alloc.Base.{
  ℕ, ◌+◌, ◌≤◌, ◌<◌, ◌≡◌, ◌⊎◌, inl, inr, refl, ◌∙◌, sym, ap, List, ◌∷◌, ◌++◌, arith, done, done_inj,
  ok, err, M,
}
use secmem_alloc.Memory.{Memory, World}
use secmem_alloc.Layout.{Layout, IsLayout}
use secmem_alloc.Traits.{Allocator, WritesIn}
use secmem_alloc.Traits.Contract.{Allocates, IsAllocator}
use secmem_alloc.Traits.Discreet.{Beyond, Free, SameBut, SameOutcome, IsDiscreet}
use secmem_alloc.SecAlloc.Blocks.{Inside-or_outside}
use secmem_alloc.Traits.Runs.{
  Lease, Holding, Answer, leased, Covered, Twins, begin, allocate_both, allocate_zeroed_both,
  deallocate_both, write_both, Allotted, Allotted-middle, Free-hidden, Rest-hidden, Covered-middle,
  Covered-inside,
}
use secmem_alloc.Traits.Holding.{
  IsHolding, allocated-IsHolding, released-IsHolding, written-IsHolding,
}

-- The two runs have the same blocks, and the state of the allocator and all bytes outside of the blocks
-- that are held are the same.
pub record SameOutside {A : Type 0} (t t' : Holding A) : Type 0 where
  pub held : t.held ≡ t'.held
  pub state : t.world.alloc ≡ t'.world.alloc
  pub memory : SameBut (Covered t.held) t.world.mem t'.world.mem

module _ {A G : Type 0} (Ready : G → World A → Type 0) (Live : G → ℕ → Layout → Type 0)
    (a : Allocator A) (laws : IsAllocator Ready Live a) where
  record Together (rs : List Answer) (t : Holding A) (rs' : List Answer) (t' : Holding A)
      : Type 0 where
    one : (g : G) × IsHolding Ready Live g t
    other : (g : G) × IsHolding Ready Live g t'
    answers : rs ≡ rs'
    same : SameOutside t t'

  -- What is known of `allocate` and of `allocate_zeroed`.
  abbrev Allocating : (Layout → M (World A) Answer) → Type 0
  Allocating call =
      (g : G) (w : World A) (l : Layout)
      → Ready g w
      → IsLayout l
      → Allocates Ready Live l g w (call l w)

  abbrev Blind : (Layout → M (World A) Answer) → Type 1
  Blind call =
      (D : ℕ → Type 0) (g g' : G) (w w' : World A) (l : Layout)
      → Ready g w
      → Ready g' w'
      → ((x : ℕ) → Free Ready Live g x → ¬ D x)
      → ((x : ℕ) → Free Ready Live g' x → ¬ D x)
      → w.alloc ≡ w'.alloc
      → SameBut D w.mem w'.mem
      → IsLayout l
      → SameOutcome D (call l w) (call l w')

  unzeroed : Allocating a.allocate_zeroed
  unzeroed g w l ready lay = elim (laws.allocs_zeroed g w l ready lay) [
    | inl (s, g', w', ran, new, zeros) ↦ inl (s, g', w', ran, new)
    | inr failed ↦ inr failed
  ]

  module _ (discreet : IsDiscreet Ready Live Beyond a) where
    -- A call that allocates, in both runs.
    allocate-Together :
        {rs rs' : List Answer} {t t' : Holding A} (l : Layout) (r r' : Answer) (w w' : World A)
        (call : Layout → M (World A) Answer)
        → Allocating call
        → Blind call
        → Together rs t rs' t'
        → IsLayout l
        → call l t.world ≡ done (r, w)
        → call l t'.world ≡ done (r', w')
        → Together
            (r ∷ rs)
            (record { held = leased r l t.held; world = w })
            (r' ∷ rs')
            (record { held = leased r' l t'.held; world = w' })
    allocate-Together {rs} {rs'} {t} {t'} l r r' w w' call allocs blind h lay run run' =
        let (g, (ready, allotted)) = h.one in
        let (g', (ready', allotted')) = h.other in
        let (q, v, v', ran, ran', state, memory) =
          blind (Covered t.held) g g' t.world t'.world l ready ready'
            (Free-hidden Ready Live g t.held allotted)
            (Free-hidden Ready Live g' t.held
              (subst (λ cs. Allotted Ready Live g' cs) (sym h.same.held) allotted'))
            h.same.state h.same.memory lay in
        let e : (q, v) ≡ (r, w) = done_inj ran run in
        let e' : (q, v') ≡ (r', w') = done_inj ran' run' in
        let same_answer : r ≡ r' =
          sym (ap (λ (z : Answer × World A). z.0) e) ∙ ap (λ (z : Answer × World A). z.0) e' in
        record {
          one =
              allocated-IsHolding Ready Live a laws g t l r w (call l t.world) (ready, allotted) lay
                (allocs g t.world l ready lay) run;
          other =
              allocated-IsHolding Ready Live a laws g' t' l r' w' (call l t'.world)
                (ready', allotted') lay (allocs g' t'.world l ready' lay) run';
          answers = rw (same_answer, h.answers) refl;
          same = record {
            held = rw (same_answer, h.same.held) refl;
            state =
                subst₂ (λ (x y : World A). x.alloc ≡ y.alloc) (ap (λ (z : Answer × World A). z.1) e)
                  (ap (λ (z : Answer × World A). z.1) e') state;
            memory =
                subst₂ (λ (x y : World A). SameBut (Covered (leased r l t.held)) x.mem y.mem)
                  (ap (λ (z : Answer × World A). z.1) e) (ap (λ (z : Answer × World A). z.1) e')
                  (λ x out. memory x (λ c. out (still_covered r l t.held x c)));
          };
        }
      where
        still_covered :
            (r : Answer) (l : Layout) (cs : List Lease) (x : ℕ)
            → Covered cs x
            → Covered (leased r l cs) x
        still_covered (ok s) l cs x c = inr c
        still_covered (err e) l cs x c = c

    deallocate-Together :
        {rs rs' : List Answer} {t t' : Holding A} (xs ys : List Lease) (c : Lease) (w w' : World A)
        → Together rs t rs' t'
        → t.held ≡ xs ++ c ∷ ys
        → t'.held ≡ xs ++ c ∷ ys
        → a.deallocate c.addr c.layout t.world ≡ done (tt, w)
        → a.deallocate c.addr c.layout t'.world ≡ done (tt, w')
        → Together rs
            (record { held = xs ++ ys; world = w })
            rs'
            (record { held = xs ++ ys; world = w' })
    deallocate-Together {rs} {rs'} {t} {t'} xs ys c w w' h split split' run run' =
        let (g, (ready, allotted)) = h.one in
        let (g', (ready', allotted')) = h.other in
        let (live, sep, rest) =
          Allotted-middle Ready Live g c xs ys
            (subst (λ cs. Allotted Ready Live g cs) split allotted) in
        let (live', sep', rest') =
          Allotted-middle Ready Live g' c xs ys
            (subst (λ cs. Allotted Ready Live g' cs) split' allotted') in
        let (q, v, v', ran, ran', state, memory) =
          discreet.deallocates (Covered (xs ++ ys)) g g' t.world t'.world c.addr c.layout ready
            ready' live live' (Rest-hidden Ready Live g c (xs ++ ys) sep rest)
            (Rest-hidden Ready Live g' c (xs ++ ys) sep' rest') h.same.state
            (λ x out beyond. h.same.memory x (λ covered.
              elim (Covered-middle c xs ys x (subst (λ cs. Covered cs x) split covered)) [
                | inl i ↦ omega (arith, i, beyond)
                | inr j ↦ out j
              ])) in
        let e = ap (λ (z : Unit {0} × World A). z.1) (done_inj ran run) in
        let e' = ap (λ (z : Unit {0} × World A). z.1) (done_inj ran' run') in
        record {
          one = released-IsHolding Ready Live a laws g t xs ys c w (ready, allotted) split run;
          other =
              released-IsHolding Ready Live a laws g' t' xs ys c w' (ready', allotted') split' run';
          answers = h.answers;
          same = record {
            held = refl;
            state = subst₂ (λ (x y : World A). x.alloc ≡ y.alloc) e e' state;
            memory =
                subst₂ (λ (x y : World A). SameBut (Covered (xs ++ ys)) x.mem y.mem) e e' memory;
          };
        }

    write-Together :
        {rs rs' : List Answer} {t t' : Holding A} (xs ys : List Lease) (c : Lease) (m m' : Memory)
        → Together rs t rs' t'
        → t.held ≡ xs ++ c ∷ ys
        → t'.held ≡ xs ++ c ∷ ys
        → WritesIn c.addr c.layout t.world.mem m
        → WritesIn c.addr c.layout t'.world.mem m'
        → Together rs
            (record { held = t.held; world = record t.world { mem = m } })
            rs'
            (record { held = t'.held; world = record t'.world { mem = m' } })
    write-Together {rs} {rs'} {t} {t'} xs ys c m m' h split split' wr wr' = record {
      one = (h.one.0, written-IsHolding Ready Live a laws h.one.0 t xs ys c m h.one.1 split wr);
      other = (
        h.other.0,
        written-IsHolding Ready Live a laws h.other.0 t' xs ys c m' h.other.1 split' wr',
      );
      answers = h.answers;
      same = record {
        held = h.same.held;
        state = h.same.state;
        memory = λ x out.
            let off : (x < c.addr) ⊎ (c.addr + c.layout.size ≤ x) = outside x out in
            wr.elsewhere x off ∙ h.same.memory x out ∙ sym (wr'.elsewhere x off);
      };
    }
      where
        outside : (x : ℕ) → ¬ Covered t.held x → (x < c.addr) ⊎ (c.addr + c.layout.size ≤ x)
        outside x out =
            elim (Inside-or_outside x (record { addr = c.addr; size = c.layout.size })) [
              | inl i ↦
                  absurd (
                    out (subst (λ cs. Covered cs x) (sym split) (Covered-inside c xs ys x i.0 i.1)))
              | inr o ↦ o
            ]

    Twins-Together :
        {s t t' : Holding A} {rs rs' : List Answer} (g : G)
        → IsHolding Ready Live g s
        → Twins a s rs t rs' t'
        → Together rs t rs' t'
    Twins-Together g start begin = record {
      one = (g, start);
      other = (g, start);
      answers = refl;
      same = record { held = refl; state = refl; memory = λ x out. refl };
    }
    Twins-Together g start (allocate_both twins l r r' w w' lay run run') =
        allocate-Together l r r' w w' a.allocate laws.allocs discreet.allocates
          (Twins-Together g start twins) lay run run'
    Twins-Together g start (allocate_zeroed_both twins l r r' w w' lay run run') =
        allocate-Together l r r' w w' a.allocate_zeroed unzeroed discreet.allocates_zeroed
          (Twins-Together g start twins) lay run run'
    Twins-Together g start (deallocate_both twins xs ys c w w' split split' run run') =
        deallocate-Together xs ys c w w' (Twins-Together g start twins) split split' run run'
    Twins-Together g start (write_both twins xs ys c m m' split split' wr wr') =
        write-Together xs ys c m m' (Twins-Together g start twins) split split' wr wr'

    pub Twins-SameOutside :
        {s t t' : Holding A} {rs rs' : List Answer} (g : G)
        → IsHolding Ready Live g s
        → Twins a s rs t rs' t'
        → (rs ≡ rs') × SameOutside t t'
    Twins-SameOutside g start twins = let h = Twins-Together g start twins in (h.answers, h.same)
