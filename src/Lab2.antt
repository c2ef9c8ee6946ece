-- ===== src/Lab2.antt =====
-- lab2: a program that starts child processes and kills the last one first: the parent and the
-- children for Linux, and the manager of the children for Windows.
pub mod Stack
pub mod Parent
pub mod Killing
pub mod Windows
mod Witnesses
pub mod Child
