-- ===== src/Page.antt =====
-- src/internals/mem.rs: the handle of one page of memory.
pub mod Source
pub mod Unix
pub mod Windows
pub mod Miri
pub mod Platform
use secmem_alloc.Base.{ℕ}

pub record Page : Type 0 where
  pub page_ptr : ℕ
  pub page_size : ℕ

unfoldable pub page_ptr_nonnull : Page → ℕ
page_ptr_nonnull page = page.page_ptr

unfoldable pub page_size : Page → ℕ
page_size page = page.page_size

unfoldable pub as_ptr_mut : Page → ℕ
as_ptr_mut page = page.page_ptr

unfoldable pub as_ptr : Page → ℕ
as_ptr page = page.page_ptr
