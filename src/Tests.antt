-- ===== src/Tests.antt =====
-- The models run on concrete inputs, and the theorems applied to them.
mod RunTests
mod RepositoryTests
mod SafetyTests
mod ContextTests
mod GuardTests
mod ApprovalTests
mod AbortTests
mod MemoryTests
mod ToolTests
mod LoopTests
mod EventTests
mod RestartTests
