-- ===== src/Run.antt =====
-- The life of a run: its statuses, its record and the manager that moves it.
pub mod Status
pub mod State
pub mod Manager
pub mod Abort
pub mod Store
pub mod Repository
