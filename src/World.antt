-- ===== src/World.antt =====
-- The world of the handlers: files by path, and the system calls on them.
pub mod Files
pub mod Calls
pub mod Invariant
pub mod Runs
pub mod Safe
pub mod Kept
pub mod Store
