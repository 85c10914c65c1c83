-- ===== src/Memory.antt =====
-- The memory pipeline: agent-kernel/memory.
pub mod Retry
