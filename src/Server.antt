-- ===== src/Server.antt =====
-- server/*.go.
pub mod Config
pub mod Defaults
pub mod Entries
pub mod Flags
pub mod Redirects
pub mod Loading
pub mod Backends
pub mod LoadSteps
pub mod Keeping
pub mod LoadInduction
pub mod LoadRuns
pub mod Sharing
pub mod Entrances
pub mod Building
pub mod Origins
pub mod Listening
pub mod Updating
pub mod Reloading
pub mod Requests
pub mod Encryption
pub mod EncryptionLaws
pub mod Samples
pub mod LoadExamples
pub mod StaticExamples
pub mod Throttle
pub mod Delivery
pub mod Dropping
pub mod Lateness
pub mod Examples
