-- ===== src/Health.antt =====
-- healthcheck/healthcheck.go.
pub mod Checks
pub mod Rounds
pub mod Routines
pub mod Examples
