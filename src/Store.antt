-- ===== src/Store.antt =====
-- internal/store: execution requests, their lifecycle and their audit trail.
pub mod Runs
pub mod Taken
pub mod Claims
pub mod Trail
pub mod Lifecycle
pub mod Keyed
pub mod Refines
pub mod Execution
