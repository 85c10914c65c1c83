-- ===== src/Context.antt =====
-- The context of a model call: agent-kernel/context.
pub mod Chunk
pub mod Budget
