-- ===== src/Middlewares.antt =====
-- middlewares/*.go: the handlers between a route and its backend.
pub mod Paths
pub mod Stripping
pub mod Chain
pub mod Retry
pub mod Attempts
pub mod Stats
pub mod Wiring
pub mod History
pub mod Examples
