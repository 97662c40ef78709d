-- ===== src/Workqueue/Inmem.antt =====
-- workqueue/inmem/inmem.go: the in-memory queue. The mutex serialises the operations, so each is a
-- function from the queue before it to the queue after it. Instants that the code reads from the
-- clock are arguments, and attempt counts, which grow by one for each start, are unbounded.
pub mod Entries
pub mod Merge
pub mod Enumerate
pub mod History
pub mod Service
pub mod Requeue
use go_driftlessaf.Base.{
  ℕ, zero, suc, ◌+◌, String, Bool, true, false, ◌||◌, Option, none, some, List, [], ◌∷◌, ◌++◌, map,
  if◌then◌else◌, ltb, leb, length, take, lookup, insert, remove, is_some, sort, ℤ, pos, ltb_ℤ,
  eqb_ℤ, min_ℤ, to_int32,
}
use go_driftlessaf.Clock.{Instant, before, add_time, unix, times_int64}
use go_driftlessaf.Workqueue.Options.{Options, Tuning, no_options, KeyState, queued, in_progress}

pub record QueueItem : Type 0 where
  pub options : Options
  pub attempts : ℕ
  pub enqueued : Instant

abbrev pub Items : Type 0
Items = List (String × QueueItem)

pub record Wq : Type 0 where
  pub limit : ℕ
  pub wip : Items
  pub queue : Items

unfoldable pub new : ℕ → Wq
new limit = record { limit = limit; wip = []; queue = [] }

-- The `switch` of mergeOptions: the not-before and the floor of the merged entry.
merge_not_before : Bool → Bool → Options → Options → Options
merge_not_before true true dst src =
    if before dst.not_before src.not_before then record dst { not_before = src.not_before } else dst
merge_not_before true false dst src = record dst {
  not_before = src.not_before;
  not_before_floor = true;
}
merge_not_before false true dst src = dst
merge_not_before false false dst src =
    if before src.not_before dst.not_before then record dst { not_before = src.not_before } else dst

merge_priority : Options → Options → Options
merge_priority dst src =
    if ltb_ℤ dst.priority src.priority then record dst { priority = src.priority } else dst

-- mergeOptions(dst, src): the options after src is merged into dst.
unfoldable pub merge_options : Options → Options → Options
unfolding merge_not_before merge_priority
merge_options dst src =
    merge_not_before src.not_before_floor dst.not_before_floor (merge_priority dst src) src

-- The branch on `w.queue[key]`, which Queue and RequeueWithOptions share: the old entry with the new
-- options merged into it, or a new entry.
unfoldable pub admit : Option QueueItem → Options → ℕ → Instant → QueueItem
admit none opts attempts now = record { options = opts; attempts = attempts; enqueued = now }
admit (some qi) opts attempts now = record qi { options = merge_options qi.options opts }

unfoldable pub upsert : String → Options → ℕ → Instant → Items → Items
unfolding admit
upsert key opts attempts now q = insert key (admit (lookup key q) opts attempts now) q

unfoldable pub enqueue : String → Options → Instant → Wq → Wq
unfolding upsert
enqueue key opts now w = record w { queue = upsert key opts 0 now w.queue }

in_progress_state : String → QueueItem → KeyState
in_progress_state key qi = record {
  key = key;
  status = in_progress;
  priority = qi.options.priority;
  attempts = to_int32 qi.attempts;
  queued_time = pos 0;
  not_before_time = unix qi.options.not_before;
}

queued_state : String → QueueItem → KeyState
queued_state key qi = record {
  key = key;
  status = queued;
  priority = qi.options.priority;
  attempts = to_int32 qi.attempts;
  queued_time = unix qi.enqueued;
  not_before_time = unix qi.options.not_before;
}

-- Get; `none` is the error codes.NotFound.
unfoldable pub get : String → Wq → Option KeyState
unfolding in_progress_state queued_state
get key w = elim (lookup key w.wip) [
  | some qi ↦ some (in_progress_state key qi)
  | none ↦ elim (lookup key w.queue) [ some qi ↦ some (queued_state key qi) | none ↦ none ]
]

-- A key returned by Enumerate that waits to be started.
pub record QueuedKey : Type 0 where
  pub options : Options
  pub key : String
  pub attempts : ℕ
  pub stamp : Instant

-- What the owner's context is: Enumerate hands out keys with none.
pub data Owner : Type 0 where
  observer running canceled : Owner

pub record InProgressKey : Type 0 where
  pub options : Options
  pub key : String
  pub attempts : ℕ
  pub owner : Owner

-- The order of sort.Slice: by priority, the highest first, then by the time of the enqueue.
unfoldable pub runs_before : QueuedKey → QueuedKey → Bool
runs_before a b =
    if eqb_ℤ a.options.priority b.options.priority
    then before a.stamp b.stamp
    else ltb_ℤ b.options.priority a.options.priority

unfoldable pub queued_key : String → QueueItem → QueuedKey
queued_key key qi = record {
  options = qi.options;
  key = key;
  attempts = qi.attempts;
  stamp = qi.enqueued;
}

-- One round of the loop body: append, sort, cut to the limit.
unfoldable pub collect : ℕ → List QueuedKey → QueuedKey → List QueuedKey
collect limit qd k =
    let sorted = sort runs_before (qd ++ k ∷ []) in
    if ltb limit (length sorted) then take limit sorted else sorted

-- The loop over `w.queue`; `clock k` is the time read when key k is looked at.
unfoldable pub collect_all : ℕ → (String → Instant) → List QueuedKey → Items → List QueuedKey
unfolding queued_key
collect_all limit clock qd [] = qd
collect_all limit clock qd ((k, qi) ∷ rest) =
    collect_all limit clock
      (if before (clock k) qi.options.not_before then qd else collect limit qd (queued_key k qi))
      rest

observed : String × QueueItem → InProgressKey
observed (k, qi) = record { options = no_options; key = k; attempts = 0; owner = observer }

-- Enumerate: the keys in progress and the next keys to run. There are no dead-lettered keys.
unfoldable pub enumerate : (String → Instant) → Wq → List InProgressKey × List QueuedKey
unfolding observed
enumerate clock w = (map observed w.wip, collect_all w.limit clock [] w.queue)

cancel : Owner → Owner
cancel observer = observer
cancel running = canceled
cancel canceled = canceled

-- The options and the attempt count with which RequeueWithOptions puts a key back.
unfoldable pub requeue_plan : Tuning → InProgressKey → Options → Instant → Options × ℕ
requeue_plan t o given now =
    let opts =
      if eqb_ℤ given.priority (pos 0)
      then record given { priority = o.options.priority }
      else given in
    if ltb_ℤ (pos 0) opts.backoff_delay
    then (record opts { not_before = add_time now opts.backoff_delay }, o.attempts)
    else if ltb_ℤ (pos 0) opts.delay
    then (record opts { not_before = add_time now opts.delay }, 0)
    else if ltb_ℤ (pos 0) opts.priority
    then (
      record opts {
        not_before =
            add_time now (min_ℤ (times_int64 o.attempts t.backoff_period) t.maximum_backoff_period);
      },
      o.attempts,
    )
    else (opts, o.attempts)

-- RequeueWithOptions, which never fails: the key with its context canceled, and the queue. The
-- clock is read once for the not-before and once for the new entry.
unfoldable pub requeue_with_options :
    Tuning → InProgressKey → Options → Instant → Instant → Wq → InProgressKey × Wq
unfolding cancel requeue_plan upsert
requeue_with_options t o given now later w =
    let (opts, attempts) = requeue_plan t o given now in
    (
      record o { owner = cancel o.owner },
      record w { queue = upsert o.key opts attempts later w.queue; wip = remove o.key w.wip },
    )

unfoldable pub requeue : Tuning → InProgressKey → Instant → Instant → Wq → InProgressKey × Wq
unfolding requeue_with_options
requeue t o now later w = requeue_with_options t o no_options now later w

unfoldable pub deadletter : InProgressKey → Wq → InProgressKey × Wq
unfolding cancel
deadletter o w = (record o { owner = cancel o.owner }, record w { wip = remove o.key w.wip })

unfoldable pub is_orphaned : InProgressKey → Bool
is_orphaned o = false

drop_wip : InProgressKey → Wq → InProgressKey × Wq
drop_wip o w = (record o { owner = canceled }, record w { wip = remove o.key w.wip })

-- Complete; `none` is the panic of calling the nil ownerCancel of an observed key.
unfoldable pub complete : InProgressKey → Wq → Option (InProgressKey × Wq)
unfolding drop_wip
complete o w = elim o.owner [ observer ↦ none | _ ↦ some (drop_wip o w) ]

pub data StartError : Type 0 where
  already_in_progress disappeared : StartError

pub data Started : Type 0 where
  started : InProgressKey → Wq → Started
  failed : StartError → Started

unfoldable pub start : QueuedKey → Instant → Wq → Started
start q now w =
    if is_some (lookup q.key w.wip)
    then failed already_in_progress
    else if is_some (lookup q.key w.queue)
    then started
        (record { options = q.options; key = q.key; attempts = q.attempts + 1; owner = running })
        (record w {
          queue = remove q.key w.queue;
          wip =
              insert q.key (record { options = q.options; attempts = q.attempts; enqueued = now })
                w.wip;
        })
    else failed disappeared
