-- ===== src/Tests/Provided.antt =====
-- The methods that `allocator_api2` provides, as simple functions.
use secmem_alloc.Base.{ℕ, refl, M, ◌>>=◌, pure, Result, ok, err}
use secmem_alloc.Memory.{World}
use secmem_alloc.Util.{Slice}
use secmem_alloc.Layout.{Layout, AllocError}
use secmem_alloc.Traits.{Allocator}
use secmem_alloc.Traits.Provided.{
  moves_to, Resize, IsProvidedGrow, IsProvidedGrowZeroed, IsProvidedShrink,
}

module _ {A : Type 0} where
  abbrev copying :
      Allocator A → ℕ → Layout → ℕ → Result Slice AllocError → M (World A) (Result Slice AllocError)
  copying self ptr old_layout count (ok new_ptr) = moves_to self ptr old_layout count new_ptr
  copying self ptr old_layout count (err e) = pure (err e)

  abbrev pub grow : Resize A
  grow self ptr old_layout new_layout =
      self.allocate new_layout >>= copying self ptr old_layout old_layout.size

  abbrev pub shrink : Resize A
  shrink self ptr old_layout new_layout =
      self.allocate new_layout >>= copying self ptr old_layout new_layout.size

  abbrev pub grow_zeroed : Resize A
  grow_zeroed self ptr old_layout new_layout =
      self.allocate_zeroed new_layout >>= copying self ptr old_layout old_layout.size

  pub grow_zeroed-IsProvidedGrowZeroed : IsProvidedGrowZeroed grow_zeroed
  grow_zeroed-IsProvidedGrowZeroed = record {
    refused = λ self ptr old_layout new_layout e w w' ran. rw ran refl;
    moved = λ self ptr old_layout new_layout new_ptr w w' ran. rw ran refl;
  }

  pub grow-IsProvidedGrow : IsProvidedGrow grow
  grow-IsProvidedGrow = record {
    refused = λ self ptr old_layout new_layout e w w' ran. rw ran refl;
    moved = λ self ptr old_layout new_layout new_ptr w w' ran. rw ran refl;
  }

  pub shrink-IsProvidedShrink : IsProvidedShrink shrink
  shrink-IsProvidedShrink = record {
    refused = λ self ptr old_layout new_layout e w w' ran. rw ran refl;
    moved = λ self ptr old_layout new_layout new_ptr w w' ran. rw ran refl;
  }
