-- ===== src/Constraints.antt =====
-- internal/constraints: the placement evaluator.
pub mod State
pub mod SpreadIndex
pub mod Placement
pub mod Predicates
pub mod CanPlace
pub mod Analyzer
pub mod Analysis
pub mod Coherence
pub mod Capacity
pub mod Drainable
pub mod Summary
