-- ===== src/Harness.antt =====
-- test/e2e/harness: the glue between the tests and the SLO engine.
pub mod Sanitize
pub mod Aggregate
pub mod Presets
pub mod Session
pub mod Hooks
pub mod Fetcher
pub mod Options
pub mod Attach
