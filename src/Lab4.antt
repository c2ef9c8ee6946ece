-- ===== src/Lab4.antt =====
-- lab4: threads that take turns, steered by a thread manager.
pub mod Queue
pub mod Ring
pub mod Child
pub mod Manager
mod Tests
pub mod Input
mod Witnesses
