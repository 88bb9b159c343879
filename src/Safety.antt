-- ===== src/Safety.antt =====
-- internal/safety/safety.go: the guard that decides whether a step may run and a pod may be evicted.
-- A refusal holds the arguments of the sentence that the code prints.
mod Checks
pub mod Rehome
pub mod Vacate
pub mod Feasible
pub mod Clear
pub mod Eviction
pub mod Verdict
pub mod Stuck
pub mod Refusal
unfoldable pub use Checks.*
