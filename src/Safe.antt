-- ===== src/Safe.antt =====
-- safe/*.go.
pub mod Pool
pub mod Signals
pub mod Stopping
pub mod LateStart
pub mod Examples
