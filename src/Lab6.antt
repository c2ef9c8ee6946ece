-- ===== src/Lab6.antt =====
-- lab6: a memory allocator on a mapped file.
pub mod Memory
pub mod Block
pub mod Layout
pub mod Search
pub mod Fit
pub mod Writes
pub mod Append
pub mod Malloc
pub mod Parts
pub mod Split
pub mod Previous
pub mod Join
pub mod Free
pub mod Release
pub mod Last
pub mod Grow
pub mod Cut
pub mod Realloc
mod Witnesses
pub mod Allocator
