-- ===== src/Constraints/Capacity.antt =====
-- The resource accounting of placement.go: free capacity against the requests of the occupants.
pub mod Account
pub mod Fit
pub mod Fresh
pub mod Housed
