-- ===== src/Workqueue/Gcs/Requeue.antt =====
-- workqueue/gcs/gcs.go: RequeueWithOptions, requeueOnce and Requeue.
pub mod Secured
pub mod Safety
pub mod Priority
use go_driftlessaf.Base.{
  ℕ, zero, suc, ◌-◌, ◌*◌, Bool, false, not, ◌||◌, ◌==◌, Option, none, some, if◌then◌else◌, ℤ, pos,
  negsuc, ltb_ℤ, eqb_ℤ, min_ℤ, two64, same, Bytes, ◌⊎◌, inl, inr,
}
use go_driftlessaf.Clock.{Instant, Duration, add_time, unix, times_int64}
use go_driftlessaf.Decimal.{format_int, parse_int, parsed}
use go_driftlessaf.Workqueue.Options.{Options, Tuning, no_options}
use go_driftlessaf.Workqueue.Gcs.Bucket.{
  queued, in_progress, Metadata, Attrs, Conditions, if_absent, if_generation, Fault, Answer, ok,
  failed, read, copy, clock, Program, ret, call, ◌>>=◌, is_not_found, precondition_failed,
}
use go_driftlessaf.Workqueue.Gcs.Metadata.{TimeText, value_at, no_priority, not_before_floor_value}
use go_driftlessaf.Workqueue.Gcs.Enqueue.{update_metadata, Round, finished, again, merge_outcome}
use go_driftlessaf.Workqueue.Gcs.Owned.{InProgressKey, with_metadata}
use go_driftlessaf.Workqueue.Gcs.Release.{delete_with_retry, unless_lost}

-- The int64 product of a count and a duration; -x is x * (2 ^ 64 - 1) modulo 2 ^ 64.
abbrev times : ℤ → Duration → Duration
times (pos n) d = times_int64 n d
times (negsuc n) d = times_int64 (suc n * (two64 - 1)) d

-- The attempts that the standard backoff counts.
abbrev attempts_or_one : Bytes → ℤ
attempts_or_one t = elim (parse_int t) [ parsed n ↦ n | _ ↦ pos 1 ]

abbrev has_priority : Option Bytes → Bool
has_priority none = false
has_priority (some p) = not (same p no_priority)

-- How long the requeued key waits, if its not-before is set.
unfoldable pub requeue_delay : Tuning → Metadata → Options → Option Duration
unfolding same
requeue_delay t m opts =
    if ltb_ℤ (pos 0) opts.backoff_delay
    then some opts.backoff_delay
    else if ltb_ℤ (pos 0) opts.delay
    then some opts.delay
    else if has_priority m.priority
    then some (
        min_ℤ (times (attempts_or_one (value_at m.attempts)) t.backoff_period)
          t.maximum_backoff_period)
    else none

-- A delay that is no backoff starts the attempts anew.
requeue_attempts : Metadata → Options → Option Bytes
requeue_attempts m opts =
    if ltb_ℤ (pos 0) opts.backoff_delay
    then m.attempts
    else if ltb_ℤ (pos 0) opts.delay
    then some (format_int (pos 0))
    else m.attempts

-- The metadata of the copy that goes back to the queue, where `wake` is the not-before that is set.
unfoldable pub requeue_metadata :
    TimeText → Instant → Option Instant → Metadata → Options → Metadata
unfolding requeue_attempts
requeue_metadata text now wake m opts = record m {
  expiration = none;
  owner = none;
  last_attempted = some (format_int (unix now));
  attempts = requeue_attempts m opts;
  not_before = elim wake [ none ↦ m.not_before | some t ↦ some (text.format t) ];
  not_before_floor =
      if opts.not_before_floor then some not_before_floor_value else m.not_before_floor;
  priority = if eqb_ℤ opts.priority (pos 0) then m.priority else some (format_int opts.priority);
}

-- The delete of the object in progress, the last step.
requeue_delete : InProgressKey → Conditions → Program Round
requeue_delete o conds =
    delete_with_retry (in_progress o.key) conds >>= λ r. ret (finished (unless_lost r))

requeue_merged : InProgressKey → Conditions → Option Fault → Program Round
unfolding requeue_delete
requeue_merged o conds none = requeue_delete o conds
requeue_merged o conds (some e) = ret (merge_outcome e)

pub requeue_copied : InProgressKey → Conditions → Metadata → Answer Attrs → Program Round
unfolding requeue_merged
requeue_copied o conds m (ok _) = requeue_delete o conds
requeue_copied o conds m (failed e) =
    let merge = update_metadata o.key m >>= requeue_merged o conds in
    if is_not_found e
    then ret (finished none)
    else if precondition_failed e
    then merge
    else ret (finished (some e))

-- The copy, which changes the map of the key, and what follows it.
requeue_move : InProgressKey → Conditions → Metadata → Program (Round × InProgressKey)
unfolding requeue_copied
requeue_move o conds m =
    let o' = record o { attrs = with_metadata o.attrs m } in
    call (copy (in_progress o.key) (some o.attrs.generation) (queued o.key) if_absent m)
      (λ a. requeue_copied o conds m a >>= λ r. ret (r, o'))

-- requeueOnce. The clock is read for the last attempt, and again where the not-before is set.
unfoldable pub requeue_once :
    TimeText → Tuning → Options → Conditions → InProgressKey → Program (Round × InProgressKey)
unfolding requeue_move
requeue_once text t opts conds o = call clock λ now. elim (requeue_delay t o.attrs.metadata opts) [
  | none ↦ requeue_move o conds (requeue_metadata text now none o.attrs.metadata opts)
  | some d ↦ call clock λ start.
      requeue_move o conds
        (requeue_metadata text now (some (add_time start d)) o.attrs.metadata opts)
]

requeue_next :
    (InProgressKey → Program (Round × InProgressKey))
    → Round
    → InProgressKey
    → Program (Round × InProgressKey)
requeue_next more (finished r) o = ret (finished r, o)
requeue_next more again o = more o

-- The loop around it; `again` is left where the fuel ends.
requeue_rounds :
    ℕ → TimeText → Tuning → Options → Conditions → InProgressKey → Program (Round × InProgressKey)
unfolding requeue_next
requeue_rounds zero text t opts conds o = ret (again, o)
requeue_rounds (suc n) text t opts conds o = requeue_once text t opts conds o >>= λ s.
    requeue_next (requeue_rounds n text t opts conds) s.0 s.1

-- What follows the read of an observed key: it goes on only if the object carries the lease that
-- was observed, and pins the delete to it.
requeue_read :
    ℕ → TimeText → Tuning → Options → InProgressKey → Answer Attrs → Program (Round × InProgressKey)
requeue_read fuel text t opts o (failed e) =
    if is_not_found e then ret (finished none, o) else ret (finished (some e), o)
requeue_read fuel text t opts o (ok a) =
    let conds = record (if_generation o.attrs.generation) {
      metageneration_match = some a.metageneration;
    } in
    if not (a.generation == o.attrs.generation) || not (a.metageneration == o.attrs.metageneration)
    then ret (finished none, o)
    else requeue_rounds fuel text t opts conds o

-- RequeueWithOptions. An owner's heartbeat is stopped by then.
unfoldable pub requeue_with_options :
    ℕ → TimeText → Tuning → Options → InProgressKey → Program (Round × InProgressKey)
unfolding requeue_rounds requeue_read
requeue_with_options fuel text t opts o =
    if o.held
    then requeue_rounds fuel text t opts (if_generation o.attrs.generation) o
    else call (read (in_progress o.key)) (requeue_read fuel text t opts o)

-- Requeue.
unfoldable pub requeue : ℕ → TimeText → Tuning → InProgressKey → Program (Round × InProgressKey)
unfolding requeue_with_options
requeue fuel text t o = requeue_with_options fuel text t no_options o
