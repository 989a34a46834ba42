-- ===== src/Rules.antt =====
-- server/rules.go.
pub mod Syntax
pub mod HostPort
pub mod Route
pub mod RoundTrip
pub mod Failures
pub mod Sizes
pub mod Examples
