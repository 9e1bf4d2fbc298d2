-- ===== src/CrateTests/Pass.antt =====
-- The unit tests of src/sec_alloc.rs, over any source of pages.
use secmem_alloc.Base.{Bool, true, false}
use secmem_alloc.Page.{Page}
use secmem_alloc.CrateTests.{
  Test, creates, boxes_8b, boxes_9b, boxes_zst, boxes, boxes_high_align, boxes_mixed_align,
  boxes_nonstacked, zeroed, vec_9b, vec_grow_repeated, vec_nonfinal_grow, vec_shrink,
  vec_nonfinal_shrink,
}

-- Whether the test makes a vector.
unfoldable pub uses_vec : Test → Bool
uses_vec creates = false
uses_vec boxes_8b = false
uses_vec boxes_9b = false
uses_vec boxes_zst = false
uses_vec boxes = false
uses_vec boxes_high_align = false
uses_vec boxes_mixed_align = false
uses_vec boxes_nonstacked = false
uses_vec zeroed = false
uses_vec vec_9b = true
uses_vec vec_grow_repeated = true
uses_vec vec_nonfinal_grow = true
uses_vec vec_shrink = true
uses_vec vec_nonfinal_shrink = true
