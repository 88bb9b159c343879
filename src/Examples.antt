-- ===== src/Examples.antt =====
-- A cluster of three nodes on which the model is run.
mod Fleet
mod Constraints
mod Safety
mod Window
mod Planner
mod Analysis
mod Store
mod Impact
mod Executor
mod Auth
