-- ===== src/Job/Tree/Meets.antt =====
-- The execution tree that the visitor builds meets what its functions need: no step lacks a value.
mod Remote
mod Groups
mod Commands
pub mod Hosts
pub mod Job
