-- ===== src/Workqueue.antt =====
-- The work queue: the workqueue folder of the repository.
pub mod Options
pub mod Errors
pub mod Interface
pub mod Inmem
pub mod Policy
pub mod Callback
pub mod Drain
pub mod Hyperqueue
pub mod Dispatcher
pub mod Retries
pub mod Gcs
