-- ===== src/Constraints/Coherence.antt =====
-- The spread index of internal/constraints against a count from scratch.
pub mod Count
pub mod Tally
pub mod Change
pub mod Index
pub mod Moves
pub mod Preserve
pub mod Answers
pub mod Runs
pub mod Apart
pub mod Asked
