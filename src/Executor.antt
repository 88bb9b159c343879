-- ===== src/Executor.antt =====
-- internal/executor: the loop that drains nodes, against a cluster and a store that it does not own.
pub mod Session
pub mod Waiting
pub mod Steps
pub mod Modes
pub mod Leads
pub mod Drains
pub mod Follows
pub mod Gives
pub mod Rails
pub mod Restores
pub mod Finishes
pub mod Completes
pub mod Targets
pub mod Rounds
pub mod Closing
