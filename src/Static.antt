-- ===== src/Static.antt =====
-- The heap-free line (async/src/no_alloc).
pub mod Lifo
pub mod Task
pub mod Executor
pub mod Channel
