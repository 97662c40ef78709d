-- ===== src/Workqueue/Gcs/Enqueue/Rounds.antt =====
-- Queue of workqueue/gcs/gcs.go calls itself again only where the queued object vanished.
use go_driftlessaf.Base.{ℕ, suc, ◌≤◌, ◌≡◌, Option, some}
use go_driftlessaf.Workqueue.Options.{Options}
use go_driftlessaf.Workqueue.Gcs.Bucket.{
  Metadata, Fault, not_exist, failed, Request, Reply, read, update,
}

abbrev gone : ℕ → Fault → ℕ
gone g not_exist = suc g
gone g e = g

-- How often the bucket said that the queued object does not exist.
abbrev pub vanish : ℕ → (r : Request) → Reply r → ℕ
vanish g (read n) (failed e) = gone g e
vanish g (update n c m) (failed e) = gone g e
vanish g r x = g

abbrev pub Anything : ℕ → Request → Type 0
Anything g r = Unit {0}

-- An error that the object does not exist has been counted.
abbrev Counted : ℕ → ℕ → Option Fault → Type 0
Counted g h r = r ≡ some not_exist → suc g ≤ h
