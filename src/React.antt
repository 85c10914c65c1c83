-- ===== src/React.antt =====
-- The ReAct loop: agent-kernel/react-loop.
pub mod Counts
pub mod Calls
pub mod Observations
pub mod Guard
pub mod Control
pub mod Transcript
pub mod Limits
pub mod Session
pub mod Turn
pub mod Loop
