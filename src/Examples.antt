-- ===== src/Examples.antt =====
-- The theorems at concrete plans, and tests of the definitions.
mod Data
mod Planning
mod Recovering
mod Running
mod Scheduling
mod Tending
mod Reconciling
mod Restoring
mod Validating
mod Polling
mod Waiting
