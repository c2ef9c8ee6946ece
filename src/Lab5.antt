-- ===== src/Lab5.antt =====
-- lab5: files are appended to one target by a reader and a writer that hand a task to each other.
pub mod Task
pub mod Utilities
pub mod Executor
pub mod Rounds
pub mod Copy
mod Witnesses
pub mod System
pub mod Library
