-- ===== src/Tests.antt =====
-- Runs of the model at concrete inputs.
mod Fixtures
mod Replacement
mod Certificates
mod Reports
mod Saving
mod Paths
mod Watching
mod Managers
mod Changing
mod Keys
mod Fetching
