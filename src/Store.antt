-- ===== src/Store.antt =====
-- The blob store of store/.
pub mod Blob
