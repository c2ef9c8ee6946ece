-- ===== src/Lab3.antt =====
-- lab3: two messagers that write to each other through shared memory.
pub mod Messager
pub mod Runs
pub mod Connection
pub mod Messages
mod Witnesses
