-- ===== src/Safety.antt =====
-- The safety rules of agent-kernel/safety.
pub mod Types
pub mod Risk
pub mod Policy
pub mod Grants
pub mod Approval
