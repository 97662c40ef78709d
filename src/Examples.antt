-- ===== src/Examples.antt =====
-- The statements of the library on concrete inputs, part by part.
pub mod Queue
pub mod Status
pub mod Passes
pub mod Circuits
pub mod Retries
pub mod Sharding
pub mod Pauses
pub mod Blobs
pub mod Buckets
pub mod Issues
pub mod Logs
