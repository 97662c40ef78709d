-- ===== src/Reconcilers.antt =====
-- The reconcilers folder of the repository.
pub mod Resync
pub mod Issues
pub mod Metapath
