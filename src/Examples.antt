-- ===== src/Examples.antt =====
-- Concrete instances of the parameters, and the theorems applied to them.
mod Instances
mod Conditions
mod Network
mod Inputs
mod Reports
mod Tasks
mod Lists
mod Webhooks
mod Observing
mod Ensuring
mod Making
mod Reconciling
mod Refreshing
mod Starting
