-- ===== src/Workqueue/Gcs/Requeue/Priority.antt =====
-- The priority that requeueOnce of workqueue/gcs/gcs.go writes, against the order in which
-- updateMetadata compares priorities.
use go_driftlessaf.Base.{ℕ, ◌<◌, ◌^◌, ◌≡◌, Option, some, arith, pos, false, less, ◌∙◌}
use go_driftlessaf.Clock.{Instant}
use go_driftlessaf.Decimal.{format_int, format_padded}
use go_driftlessaf.Decimal.Order.{less-unpadded}
use go_driftlessaf.Workqueue.Options.{Options}
use go_driftlessaf.Workqueue.Inmem.{merge_options}
use go_driftlessaf.Workqueue.Inmem.Merge.{merge_options-join}
use go_driftlessaf.Workqueue.Gcs.Metadata.Merge.{merge_metadata-priority}
use go_driftlessaf.Workqueue.Gcs.Bucket.{Metadata}
use go_driftlessaf.Workqueue.Gcs.Metadata.{TimeText, stored, merge_metadata}
use go_driftlessaf.Workqueue.Gcs.Requeue.{requeue_metadata}

-- After a requeue with the priority p, an enqueue with a higher priority q below 10 ^ 7 does not
-- raise the priority of the object, where the in-memory queue raises it: requeueOnce writes the
-- priority without the zeros by which texts compare.
pub requeue_priority_sticks :
    (text : TimeText) (now : Instant) (wake : Option Instant) (m : Metadata) (opts later : Options)
    (p q : ℕ)
    → opts.priority ≡ pos p
    → later.priority ≡ pos q
    → 0 < p
    → p < q
    → q < 10 ^ 7
    → let back = requeue_metadata text now wake m opts in
      ((merge_metadata back (stored text m later)).0.priority ≡ some (format_int (pos p)))
      × ((merge_options opts later).priority ≡ pos q)
unfolding requeue_metadata
requeue_priority_sticks text now wake m opts later p q ep eq h k l =
    let back = requeue_metadata text now wake m opts in
    let written : back.priority ≡ some (format_int (pos p)) = ground arith in
    let lower : less (format_int (pos p)) (format_padded later.priority) ≡ false =
      rw eq (less-unpadded p q h (omega arith) l).1 in
    (
      merge_metadata-priority back (stored text m later) (format_int (pos p)) written ∙ rw lower,
      (merge_options-join opts later).1 ∙ rw (ep, eq) (ground arith),
    )
