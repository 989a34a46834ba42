-- ===== src/Acme.antt =====
-- acme/*.go.
pub mod Certificates
pub mod Duplicates
pub mod Lookup
pub mod Examples
