-- ===== src/ZoxFs/Valid.antt =====
-- The well-formedness of a context, and that it is kept where a new directory is linked.
pub mod Weights
pub mod Made
pub mod Kept
pub mod Format
