-- ===== src/Dynamic.antt =====
-- The `alloc` line (async/src/dynamic): tasks that are spawned, stolen and cancelled at run time.
pub mod Queues
pub mod Registry
pub mod Executor
mod Tests
