-- ===== src/Workqueue/Gcs.antt =====
-- workqueue/gcs/gcs.go: the queue over a bucket of objects.
pub mod Bucket
pub mod Reasoning
pub mod Metadata
pub mod Enqueue
pub mod Owned
pub mod Release
pub mod Requeue
pub mod Listing
pub mod Lookup
pub mod Lease
use go_driftlessaf.Base.{ℕ}
