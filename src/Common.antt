-- ===== src/Common.antt =====
-- What all lines share (async/src/common): futures that need no executor of their own.
pub mod Control
pub mod Tick
pub mod Time
pub mod Step
pub mod Signal
pub mod Mutex
