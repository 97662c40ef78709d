-- ===== src/Examples/Buckets.antt =====
-- The queue of workqueue/gcs on concrete keys.
use mathlib.Core.List.{Perm}
use Prim.Native.Nat.{min}
use go_driftlessaf.Base.{
  Ordered, ◌+ℤ◌, ◌*◌, ◌/◌, ◌≡◌, ◌≢◌, refl, true, Option, none, some, List, [], ◌∷◌, ◌++◌, arith,
  pos, negsuc, Bytes, ascii, length,
}
use go_driftlessaf.Clock.{Instant, second_ns}
use go_driftlessaf.Decimal.{Parsed, parsed, parse_int, format_int}
use go_driftlessaf.Decimal.Order.{fixed}
use go_driftlessaf.Workqueue.Options.{Options, no_options, default_tuning}
use go_driftlessaf.Workqueue.Inmem
use go_driftlessaf.Workqueue.Inmem.{Wq, merge_options}
use go_driftlessaf.Workqueue.Gcs.Bucket.{ok, queued, in_progress, Attrs, no_metadata}
use go_driftlessaf.Workqueue.Gcs.Reasoning.{Obeys}
use go_driftlessaf.Workqueue.Gcs.Metadata.{TimeText, stored, merge_metadata}
use go_driftlessaf.Workqueue.Gcs.Enqueue.{queue}
use go_driftlessaf.Workqueue.Gcs.Enqueue.Recorded.{MayEnqueue, note, Accepted, queue_recorded}
use go_driftlessaf.Workqueue.Gcs.Owned.{InProgressKey, QueuedKey}
use go_driftlessaf.Workqueue.Gcs.Requeue.{requeue_metadata, requeue_with_options}
use go_driftlessaf.Workqueue.Gcs.Requeue.Secured.{MaySend, learn, nothing_known}
use go_driftlessaf.Workqueue.Gcs.Requeue.Safety.{Ended, requeue_with_options_secured}
use go_driftlessaf.Workqueue.Gcs.Requeue.Priority.{requeue_priority_sticks}
use go_driftlessaf.Workqueue.Gcs.Release.{deadletter}
use go_driftlessaf.Workqueue.Gcs.Release.Safety.{
  MayBury, part, Parted, at_first, deadletter_secured,
}
use go_driftlessaf.Workqueue.Gcs.Listing.{Lister, Found, enumerate, runs_before}
use go_driftlessaf.Workqueue.Gcs.Listing.Best.{ready, leased, enumerate_objects_best}
use go_driftlessaf.Workqueue.Gcs.Lease.{Pacing, unfinished, refresh_lease}
use go_driftlessaf.Workqueue.Gcs.Lease.Safety.{MayRefresh, listen, Renewed, refresh_lease_safe}
use go_driftlessaf.Workqueue.Gcs.Lease.Decides.{AnyRequest, Pace, tick, refresh_lease_decides}

-- Instants as twelve digits of seconds, in place of RFC 3339.
abbrev seconds_text : Instant → Bytes
seconds_text (pos n) = fixed 12 (n / second_ns)
seconds_text (negsuc n) = []

abbrev instant_of : Parsed → Option Instant
instant_of (parsed (pos n)) = some (pos (n * second_ns))
instant_of _ = none

abbrev digits_text : TimeText
digits_text = record { format = seconds_text; parse = λ s. instant_of (parse_int s) }

abbrev urgent : Options
urgent = record no_options { priority = pos 7; not_before = pos 5000000000 }

abbrev held_back : Options
held_back = record no_options {
  priority = pos 120;
  not_before = pos 9500000000;
  not_before_floor = true;
}

abbrev object : Attrs
object = record {
  name = in_progress "k";
  created = pos 1000000000;
  generation = 17;
  metageneration = 2;
  metadata = record (stored digits_text no_metadata urgent) { attempts = some (ascii "3") };
}

abbrev owned : InProgressKey
owned = record { key = "k"; attrs = object; priority = pos 7; held = true }

abbrev waiting_key : QueuedKey
waiting_key = record { key = "k"; attrs = object; priority = pos 7; owner = ascii "eu" }

requeue_with_options_secured_example :
    Obeys
      (MaySend owned)
      (learn owned)
      Ended
      nothing_known
      (requeue_with_options 3 digits_text default_tuning held_back owned)
requeue_with_options_secured_example =
    requeue_with_options_secured digits_text default_tuning held_back owned 3

queue_recorded_example :
    Obeys
      (MayEnqueue "k")
      note
      (Accepted (stored digits_text no_metadata urgent))
      none
      (queue 2 digits_text "k" urgent)
queue_recorded_example = queue_recorded 2 digits_text "k" urgent none

requeue_priority_sticks_example :
    let back = requeue_metadata digits_text (pos 0) none no_metadata urgent in
    ((merge_metadata back (stored digits_text no_metadata held_back)).0.priority
      ≡ some (format_int (pos 7)))
    × ((merge_options urgent held_back).priority ≡ pos 120)
requeue_priority_sticks_example =
    requeue_priority_sticks digits_text (pos 0) none no_metadata urgent held_back 7 120 refl refl
      (omega arith) (omega arith) (omega arith)

deadletter_secured_example :
    Obeys (MayBury owned) part Parted at_first (deadletter digits_text owned)
deadletter_secured_example = deadletter_secured owned digits_text

enumerate_objects_best_example :
    let w : Lister = record { limit = 2; owner = [] } in
    (found : Found) × (rest : List QueuedKey) × (enumerate w digits_text
        (λ k. pos 0)
        (object ∷ [])
        none
      ≡ ok found)
    × (found.wip ≡ leased w digits_text (λ k. pos 0) (object ∷ []))
    × Perm (found.qd ++ rest) (ready w digits_text (λ k. pos 0) (object ∷ []))
    × Ordered runs_before (found.qd ++ rest)
    × (length found.qd ≡ min 2 (length (ready w digits_text (λ k. pos 0) (object ∷ []))))
enumerate_objects_best_example =
    enumerate_objects_best (record { limit = 2; owner = [] }) digits_text (λ k. pos 0) (object ∷ [])

abbrev parked : Attrs
parked = record object { name = queued "k"; metadata = stored digits_text no_metadata urgent }

abbrev one_entry : Wq
one_entry = record {
  limit = 1;
  wip = [];
  queue = ("k", record { options = urgent; attempts = 0; enqueued = pos 1000000000 }) ∷ [];
}

-- Refreshes every five minutes, retries every half minute.
abbrev pacing : Pacing
pacing = record { refresh = pos 300000000000; heartbeat_retry = pos 30000000000 }

refresh_lease_safe_example :
    Obeys
      (MayRefresh digits_text pacing (pos 900000000000) owned)
      listen
      (Renewed digits_text pacing (pos 900000000000) owned)
      (record { now = pos 0; stamped = none; given = none })
      (refresh_lease 30 digits_text pacing (pos 900000000000) owned)
refresh_lease_safe_example =
    refresh_lease_safe digits_text pacing (pos 900000000000) owned 30
      (record { now = pos 0; stamped = none; given = none })

abbrev on_time : Pace
on_time = record { now = pos 0; due = pos 0; honest = true }

refresh_lease_decides_example :
    Obeys AnyRequest tick
      (λ h r. h.honest ≡ true → r ≢ unfinished)
      on_time
      (refresh_lease 30 digits_text pacing (pos 900000000000) owned)
unfolding ◌+ℤ◌
refresh_lease_decides_example =
    refresh_lease_decides digits_text pacing (pos 900000000000) owned 30000000000 refl 30 on_time
      (omega arith) (omega arith)
