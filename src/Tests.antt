-- ===== src/Tests.antt =====
-- Tests and witnesses: the code on concrete inputs, and states on which the theorems apply.
pub mod Machine
pub mod Run
pub mod Systems
pub mod Bump
mod Wrapper
mod Alloc
mod Parts
mod Life
mod Edges
pub mod Boxed
mod Provided
mod Composed
mod Twin
mod Secret
