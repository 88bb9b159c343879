-- ===== src/Planner.antt =====
-- internal/planner: the greedy consolidation planner.
mod Policy
mod Greedy
pub mod Evacuate
pub mod Forward
pub mod Bounds
pub mod Choice
unfoldable pub use Policy.*
unfoldable pub use Greedy.*
