-- ===== src/Events.antt =====
-- The events of the agent kernel.
pub mod Throttle
