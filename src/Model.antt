-- ===== src/Model.antt =====
-- internal/model: the domain types.
pub mod Resources
pub mod Labels
pub mod Cluster
pub mod Plan
pub mod Figures
