-- ===== src/Nano.antt =====
-- The `nano_alloc` line (async/src/nano_alloc).
pub mod Executor
pub mod Channel
