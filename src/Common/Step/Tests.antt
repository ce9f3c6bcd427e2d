-- ===== src/Common/Step/Tests.antt =====
-- The futures and the pacer of async/src/common/step.rs at concrete numbers.
