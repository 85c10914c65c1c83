-- ===== src/Tools.antt =====
-- The tools that a run may call: agent-kernel/tools.
pub mod Schema
pub mod Validator
