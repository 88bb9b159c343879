-- ===== src/Impact.antt =====
-- internal/impact: the rating of a step and the reasons for it.
pub mod Classifier
pub mod Keys
pub mod Rating
pub mod Known
pub mod Disruption
