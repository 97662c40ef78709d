-- ===== src/Workqueue/Gcs/Lookup/Stored.antt =====
-- Get of workqueue/gcs/gcs.go on what Queue stored, against Get of workqueue/inmem/inmem.go.
use go_driftlessaf.Workqueue.Options.{Options}
use go_driftlessaf.Workqueue.Inmem
use go_driftlessaf.Workqueue.Inmem.{QueueItem}
