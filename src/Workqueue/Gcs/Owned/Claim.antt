-- ===== src/Workqueue/Gcs/Owned/Claim.antt =====
-- Start of workqueue/gcs/gcs.go: what it sends, whatever the bucket answers and whatever others do in
-- between.
use go_driftlessaf.Base.{◌≡◌, true, Option, none, some}
use go_driftlessaf.Workqueue.Gcs.Bucket.{
  queued, in_progress, Attrs, ok, failed, Request, Reply, copy, delete, clock,
}
use go_driftlessaf.Workqueue.Gcs.Metadata.{TimeText, no_not_before}
use go_driftlessaf.Workqueue.Gcs.Owned.{QueuedKey, Claimed}

-- The object in progress that the copy made.
abbrev pub made : Option Attrs → (r : Request) → Reply r → Option Attrs
made g (copy s q t c m) (ok a) = some a
made g r x = g

-- Start reads the clock, copies the queued object to an object in progress that is not there, with a
-- lease, no not-before and no floor, and deletes the queued object once that copy is made.
abbrev pub MayStart : TimeText → QueuedKey → Option Attrs → Request → Type 0
MayStart text q g (copy s p t c m) =
    (s ≡ queued q.key)
    × (t ≡ in_progress q.key)
    × (c.does_not_exist ≡ true)
    × (m.not_before ≡ some (no_not_before text))
    × (m.not_before_floor ≡ none)
    × ((lease : _) × (m.expiration ≡ some lease))
MayStart text q g (delete n c) = (n ≡ queued q.key) × ((a : Attrs) × (g ≡ some a))
MayStart text q g clock = Unit {0}
MayStart text q g r = ⊥

-- A key is handed out exactly when the copy was made, with what the copy gave.
abbrev pub Handed : QueuedKey → Option Attrs → Claimed → Type 0
Handed q g (ok o, _) = (g ≡ some o.attrs) × (o.key ≡ q.key) × (o.held ≡ true)
Handed q g (failed e, _) = g ≡ none
