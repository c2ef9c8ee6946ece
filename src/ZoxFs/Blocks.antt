-- ===== src/ZoxFs/Blocks.antt =====
-- The chain of clusters that holds a file.
pub mod Block
pub mod Chain
pub mod Bytes
pub mod Round
pub mod Loop
pub mod Whole
pub mod Overflow
